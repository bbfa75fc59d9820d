-- ===== src/Domain/Units.antt =====
-- domain/include/domain/quantity.hpp: a quantity is its unsigned 64-bit number of units.
use flux_trade.Prelude.{ℕ}
use flux_trade.Prelude.Words.{add64, sub64}

abbrev pub Quantity : Type 0
Quantity = ℕ

abbrev pub qty_add : Quantity → Quantity → Quantity
qty_add a b = add64 a b

abbrev pub qty_sub : Quantity → Quantity → Quantity
qty_sub a b = sub64 a b
