-- ===== src/Risk/Gates.antt =====
-- The checks without a history: risk/include/risk/kill_switch.hpp, circuit_breaker.hpp,
-- fat_finger_validator.hpp, price_band_validator.hpp and self_trade_prevention.hpp. The switches are
-- static in the source and fields of `Switches` here.
use flux_trade.Prelude.{ℕ, ◌%◌, Bool, true, false, ◌&&◌, ◌||◌, ltb, if◌then◌else◌}
use flux_trade.Prelude.Int.{pos, ltb_ℤ}
use flux_trade.Domain.{Price, price_eq}
use flux_trade.Risk.Context.{RiskContext, RiskLimits}

pub data MarketStatus : Type 0 where
  trading volatility_halt halt auction resume : MarketStatus

pub record Switches : Type 0 where
  pub global_halt : Bool
  pub blocked_accounts : ℕ → Bool
  pub blocked_symbols : ℕ → Bool
  pub status : MarketStatus

abbrev pub all_clear : Switches
all_clear = record {
  global_halt = false;
  blocked_accounts = λ i. false;
  blocked_symbols = λ i. false;
  status = MarketStatus.trading;
}

unfoldable pub kill_switch : RiskContext → RiskLimits → Switches → Bool
kill_switch ctx limits sw =
    if limits.kill_switch_active || sw.global_halt
    then false
    else if sw.blocked_accounts (ctx.account_id % 1024)
    then false
    else if sw.blocked_symbols (ctx.symbol_id % 1024)
    then false
    else true

unfoldable pub circuit_breaker : Switches → Bool
circuit_breaker sw = elim sw.status [
  | MarketStatus.halt ↦ false
  | MarketStatus.volatility_halt ↦ false
  | _ ↦ true
]

unfoldable pub fat_finger : RiskContext → RiskLimits → Bool
fat_finger ctx limits =
    if ltb 0 limits.max_order_qty && ltb limits.max_order_qty ctx.qty
    then false
    else if ltb_ℤ (pos 0) limits.max_order_price && ltb_ℤ limits.max_order_price ctx.price
    then false
    else true

-- `in_band` is the comparison in double of a price with a reference price.
unfoldable pub price_band : (Price → Price → Bool) → RiskContext → Bool
price_band in_band ctx =
    if price_eq ctx.reference_price (pos 0) then true else in_band ctx.reference_price ctx.price

-- Self trades are left to the matching.
unfoldable pub self_trade : RiskContext → Bool
self_trade ctx = true
