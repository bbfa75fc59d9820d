-- ===== src/Risk/Margin.antt =====
-- risk/include/risk/position_state.hpp, margin_manager.hpp and risk/src/margin_manager.cpp. The array
-- of 128 by 32 positions is a function of both indexes. The source's int64_t sums are undefined where
-- they leave 64 bits, and are those of the integers here.
use flux_trade.Prelude.{ℕ, ◌%◌, Bool, true, false, ◌&&◌, ltb, ◌==◌, if◌then◌else◌}
use flux_trade.Prelude.Int.{ℤ, pos, ltb_ℤ, ◌+ℤ◌, ◌-ℤ◌}
use flux_trade.Prelude.Words.{add64, to_u64, to_i64}
use flux_trade.Domain.{Side, buy, sell}
use flux_trade.Risk.Context.{RiskContext}

pub record PositionState : Type 0 where
  pub net_qty : ℤ
  pub long_qty : ℕ
  pub short_qty : ℕ
  pub gross_qty : ℕ
  pub max_long_limit : ℕ
  pub max_short_limit : ℕ
  pub symbol_id : ℕ
  pub account_id : ℕ
  pub last_update_ts : ℕ

abbrev pub Positions : Type 0
Positions = ℕ → ℕ → PositionState

abbrev pub signed_by : Side → ℤ → ℤ → ℤ
signed_by buy net qty = net +ℤ qty
signed_by sell net qty = net -ℤ qty

-- The two limits against the net position that an order would lead to.
unfoldable pub within_limits : ℤ → PositionState → Bool
within_limits next_net position =
    if ltb_ℤ (pos 0) next_net
      && ltb 0 position.max_long_limit
      && ltb position.max_long_limit (to_u64 next_net)
    then false
    else if ltb_ℤ next_net (pos 0)
        && ltb 0 position.max_short_limit
        && ltb position.max_short_limit (to_u64 (pos 0 -ℤ next_net))
    then false
    else true

unfoldable pub validate : RiskContext → PositionState → Bool
validate ctx position =
    within_limits (signed_by ctx.side position.net_qty (to_i64 ctx.qty)) position

unfoldable pub position_state : ℕ → ℕ → Positions → PositionState
position_state account symbol positions =
    let state = positions (account % 128) (symbol % 32) in
    if state.account_id == 0 && state.symbol_id == 0
    then record state { account_id = account; symbol_id = symbol }
    else state

unfoldable pub add_fill : Side → ℕ → PositionState → PositionState
add_fill buy qty s = record s { long_qty = add64 s.long_qty qty }
add_fill sell qty s = record s { short_qty = add64 s.short_qty qty }

unfoldable pub settle_fill : PositionState → PositionState
settle_fill s = record s {
  net_qty = to_i64 s.long_qty -ℤ to_i64 s.short_qty;
  gross_qty = add64 s.long_qty s.short_qty;
}

unfoldable pub update_on_fill : ℕ → ℕ → Side → ℕ → Positions → Positions
update_on_fill account symbol side qty positions a s =
    if a == account % 128 && s == symbol % 32
    then settle_fill (add_fill side qty (position_state account symbol positions))
    else positions a s

unfoldable pub reset : Positions
reset a s = record {
  net_qty = pos 0;
  long_qty = 0;
  short_qty = 0;
  gross_qty = 0;
  max_long_limit = 1000000000;
  max_short_limit = 1000000000;
  symbol_id = s;
  account_id = a;
  last_update_ts = 0;
}
