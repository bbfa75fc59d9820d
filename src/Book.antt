-- ===== src/Book.antt =====
-- matching/order_book: the limit order book. `Level` has the orders of one price, `Levels` the two
-- sorted sides, `Lookup` the map from order ids, `State` the state of
-- LimitOrderBook with the steps its operations share, `Ops` the operations of LimitOrderBook.
pub mod Level
pub mod Levels
pub mod Lookup
pub mod State
pub mod Ops
pub mod Front
pub mod Sorted
pub mod Sums
pub mod Valid
pub mod Keep
pub mod Fill
pub mod Cancel
pub mod Modify
pub mod Link
pub mod Opens
pub mod Insert
pub mod Room
pub mod Samples
mod Tests
