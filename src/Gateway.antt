-- ===== src/Gateway.antt =====
-- gateway/include/gateway and gateway/src: sessions, packets, framing and the commands that come of them.
pub mod Protocol
pub mod Commands
pub mod Sessions
pub mod Inbound
pub mod Framing
pub mod Frames
pub mod Access
pub mod SessionTable
mod Tests
