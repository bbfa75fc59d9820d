-- ===== src/Risk.antt =====
-- risk/include/risk and risk/src: the pre-trade checks, the state that they keep, and RiskEngine.
pub mod Context
pub mod Credit
pub mod Funds
pub mod Margin
pub mod Positions
pub mod Duplicates
pub mod RateLimit
pub mod Window
pub mod Gates
pub mod Pipeline
pub mod Engine
pub mod Decisions
pub mod Rejections
mod Tests
