-- ===== src/Matching.antt =====
-- matching/include/matching and matching/src: the matching engine. `Context` has the reports and the
-- buffers they go to, `TradeBuilder` what fills them, `Statistics` the counters, `Engine` the engine.
pub mod Context
pub mod TradeBuilder
pub mod Statistics
pub mod Engine
pub mod Sweep
pub mod SweepLaws
pub mod Tape
pub mod OneTrade
pub mod OneLevel
pub mod AllLevels
pub mod Ready
pub mod Finish
pub mod Submit
pub mod Trades
pub mod Outcome
mod Tests
