-- ===== src/Domain/Ticks.antt =====
-- domain/include/domain/price.hpp: a price is its signed 64-bit number of ticks.
use flux_trade.Prelude.{Bool}
use flux_trade.Prelude.Int.{ℤ, ltb_ℤ, eqb_ℤ}

abbrev pub Price : Type 0
Price = ℤ

abbrev pub price_eq : Price → Price → Bool
price_eq p q = eqb_ℤ p q

abbrev pub price_lt : Price → Price → Bool
price_lt p q = ltb_ℤ p q

abbrev pub price_gt : Price → Price → Bool
price_gt p q = ltb_ℤ q p
