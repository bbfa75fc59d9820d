-- ===== src/Domain.antt =====
-- The value objects and records of domain/include/domain, and the words they are made of.
mod Types
mod Ticks
mod Units
mod Records
pub use Types.*
pub use Ticks.*
pub use Units.*
pub use Records.*
