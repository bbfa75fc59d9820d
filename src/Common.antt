-- ===== src/Common.antt =====
-- common/include/common: the object pool and the ring buffer. `Table` has the arrays that are functions
-- of the index.
pub mod Table
pub mod ObjectPool
pub mod Ring
pub mod Window
pub mod Queue
pub mod Threads
pub mod Fifo
mod Tests
