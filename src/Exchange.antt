-- ===== src/Exchange.antt =====
-- exchange/include/exchange and exchange/src: the dispatcher, the engine managers and the exchange.
pub mod Reports
pub mod EngineManager
pub mod Dispatcher
pub mod Commands
pub mod Cancels
pub mod Venue
pub mod Routing
pub mod Responses
mod Tests
