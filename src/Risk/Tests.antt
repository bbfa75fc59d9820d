-- ===== src/Risk/Tests.antt =====
-- The risk checks' properties at concrete orders and accounts.
use flux_trade.Prelude.{
  Bool, List, ◌+◌, ◌<◌, ◌≤◌, true, false, [], ◌∷◌, ◌++◌, ◌≡◌, refl, arith, map,
}
use flux_trade.Prelude.Int.{pos, pos_part, neg_part, ◌-ℤ◌, ◌+ℤ◌}
use flux_trade.Prelude.Words.{u64_mod, add64}
use flux_trade.Domain.{buy, OrderType, Price}
use flux_trade.Risk.Context.{RiskContext, RiskLimits, SelfTradePreventionMode}
use flux_trade.Risk.Credit
use flux_trade.Risk.Credit.{cost_of, account_state, update_on_accept, update_on_cancel}
use flux_trade.Risk.Funds.{
  CreditOp, AllCovered, funds, run, run_keeps_funds, run_spares, cancel-accept,
}
use flux_trade.Risk.Margin
use flux_trade.Risk.Positions.{Balanced, filled-within_limits}
use flux_trade.Risk.Duplicates
use flux_trade.Risk.Duplicates.{check_duplicate, check_all, repeated_id_rejected, collision_forgets}
use flux_trade.Risk.RateLimit
use flux_trade.Risk.RateLimit.{fresh, stamp, check_tracker, check_rate}
use flux_trade.Risk.Gates.{
  all_clear, kill_switch, circuit_breaker, fat_finger, price_band, self_trade,
}
use flux_trade.Risk.Pipeline.{Stage, check, run_stages, policies, reject_reason}
use flux_trade.Risk.Engine
use flux_trade.Risk.Rejections.{passed, counted, rejection_is_counted}
use flux_trade.Risk.Decisions.{accepted_order_is_reserved, rejected_order_reserves_nothing}
use flux_trade.Risk.Window.{by_tracker, by_window, tracker-refines-window}

-- Account 7 buys 400 units at 3000000 ticks, at a cost of 1200.
abbrev small_buy : RiskContext
small_buy = record {
  order_id = 20;
  price = pos 3000000;
  qty = 400;
  timestamp = 5;
  reference_price = pos 0;
  client_order_id = 20;
  symbol_id = 3;
  client_id = 1;
  account_id = 7;
  side = buy;
  type = OrderType.limit;
}

abbrev limits : RiskLimits
limits = record {
  max_credit_limit = 1000000000000000;
  max_daily_exposure = 2000000000000000;
  max_order_qty = 10000000000;
  max_order_price = pos 500000000000;
  stp_mode = SelfTradePreventionMode.cancel_new;
  max_orders_per_sec = 100;
  kill_switch_active = false;
}

small_buy-affordable : Credit.validate small_buy limits (account_state 7 Credit.reset) ≡ true
unfolding Credit.validate account_state Credit.reset
small_buy-affordable = refl

-- Reserves 1200, pays 700 of them and gives the rest back.
abbrev bought : List CreditOp
bought = CreditOp.accept 1200 ∷ CreditOp.fill 700 ∷ CreditOp.cancel 500 ∷ []

starts_small : funds (account_state 7 Credit.reset) < u64_mod
unfolding account_state Credit.reset
starts_small = omega arith

bought-covered : AllCovered 7 bought Credit.reset
unfolding account_state Credit.reset update_on_accept Credit.reserve
bought-covered = (tt, (omega arith, (tt, tt)))

run_keeps_funds_example :
    funds (account_state 7 (run 7 bought Credit.reset)) ≡ funds (account_state 7 Credit.reset)
run_keeps_funds_example = run_keeps_funds 7 bought Credit.reset starts_small bought-covered

run_spares_example : account_state 8 (run 7 bought Credit.reset) ≡ account_state 8 Credit.reset
run_spares_example = run_spares 7 bought Credit.reset 8 (omega arith)

cancel-accept_example :
    let before = account_state 7 Credit.reset in
    let accepted = update_on_accept 7 (cost_of small_buy) Credit.reset in
    ((account_state 7 accepted).available_buying_power + cost_of small_buy
      ≡ before.available_buying_power)
    × ((account_state 7 accepted).reserved_capital ≡ before.reserved_capital + cost_of small_buy)
    × (account_state 7 (update_on_cancel 7 (cost_of small_buy) accepted) ≡ before)
cancel-accept_example =
    cancel-accept small_buy limits Credit.reset small_buy-affordable starts_small

abbrev flat : Margin.PositionState
flat = Margin.position_state 7 3 Margin.reset

flat-Balanced : Balanced flat
unfolding Margin.position_state Margin.reset ◌-ℤ◌
flat-Balanced = record { net = refl; long_small = omega arith; short_small = omega arith }

flat_limits : (0 < flat.max_long_limit) × (0 < flat.max_short_limit)
unfolding Margin.position_state Margin.reset
flat_limits = omega arith

small_buy-within : Margin.validate small_buy flat ≡ true
unfolding Margin.validate Margin.within_limits Margin.position_state Margin.reset ◌-ℤ◌ ◌+ℤ◌
small_buy-within = refl

filled-within_limits_example :
    let filled = Margin.update_on_fill 7 3 buy 400 Margin.reset 7 3 in
    (pos_part filled.net_qty ≤ flat.max_long_limit)
    × (neg_part filled.net_qty ≤ flat.max_short_limit)
filled-within_limits_example =
    filled-within_limits small_buy Margin.reset flat-Balanced (omega arith) flat_limits.0
      flat_limits.1 small_buy-within

repeated_id_rejected_example :
    (check_duplicate 20 (check_all (21 ∷ 22 ∷ []) (check_duplicate 20 Duplicates.reset).1)).0
    ≡ false
repeated_id_rejected_example =
    repeated_id_rejected 20 (21 ∷ 22 ∷ []) Duplicates.reset (omega arith)
      (omega arith, (omega arith, tt))

collision_forgets_example :
    (check_duplicate 20 (check_duplicate 4116 (check_duplicate 20 Duplicates.reset).1).1).0 ≡ true
collision_forgets_example =
    collision_forgets 20 4116 Duplicates.reset (omega arith) (omega arith) refl

tracker-refines-window_example :
    by_tracker 2 (10 ∷ 20 ∷ 30 ∷ 1000000010 ∷ []) fresh
    ≡ by_window 2 (10 ∷ 20 ∷ 30 ∷ 1000000010 ∷ []) []
tracker-refines-window_example =
    tracker-refines-window 2 (10 ∷ 20 ∷ 30 ∷ 1000000010 ∷ []) (omega arith) (omega arith)

abbrev reference_only : Price → Price → Bool
reference_only reference price = true

-- More than the fat finger limit allows.
abbrev huge_buy : RiskContext
huge_buy = record small_buy { qty = 20000000000 }

small_buy-accepted : (Engine.validate reference_only small_buy [] 40 Engine.reset).1 ≡ true
unfolding Engine.validate Engine.reset run_stages check kill_switch circuit_breaker check_duplicate
    check_rate check_tracker stamp fat_finger price_band self_trade Margin.validate
    Margin.within_limits Margin.position_state Margin.reset ◌-ℤ◌ ◌+ℤ◌ Credit.validate account_state
    Credit.reset Duplicates.reset RateLimit.reset fresh
small_buy-accepted = refl

huge_buy-rejected : (Engine.validate reference_only huge_buy [] 40 Engine.reset).1 ≡ false
unfolding Engine.validate Engine.reset run_stages check kill_switch circuit_breaker check_duplicate
    check_rate check_tracker stamp fat_finger Duplicates.reset RateLimit.reset fresh
huge_buy-rejected = refl

starts_small_in_engine : funds (account_state 7 Engine.reset.context.credit) < u64_mod
unfolding account_state Credit.reset Engine.reset
starts_small_in_engine = omega arith

accepted_order_is_reserved_example :
    let before = account_state 7 Engine.reset.context.credit in
    let after =
      account_state 7
        (Engine.validate reference_only small_buy [] 40 Engine.reset).3.context.credit in
    (after.available_buying_power + cost_of small_buy ≡ before.available_buying_power)
    × (after.reserved_capital ≡ before.reserved_capital + cost_of small_buy)
accepted_order_is_reserved_example =
    accepted_order_is_reserved reference_only small_buy [] 40 Engine.reset starts_small_in_engine
      small_buy-accepted

rejected_order_reserves_nothing_example :
    account_state 7 (Engine.validate reference_only huge_buy [] 40 Engine.reset).3.context.credit
    ≡ account_state 7 Engine.reset.context.credit
rejected_order_reserves_nothing_example =
    rejected_order_reserves_nothing reference_only huge_buy [] 40 Engine.reset huge_buy-rejected

abbrev halted : Engine.RiskEngine
halted = record Engine.reset { switches = record all_clear { global_halt = true } }

halted-rejected : (Engine.validate reference_only small_buy [] 40 halted).1 ≡ false
unfolding Engine.validate run_stages check kill_switch Engine.reset
halted-rejected = refl

rejection_is_counted_example :
    let (reason, ok, trace, e') = Engine.validate reference_only small_buy [] 40 halted in
    (before : List Stage) × (stage : Stage) × (after : List Stage) × (policies
      ≡ before ++ stage ∷ after)
    × (trace ≡ map passed before ++ (stage, false) ∷ [])
    × (reason ≡ reject_reason stage)
    × (e'.stats
        ≡ Engine.record_risk_latency 40 (
            counted stage
              (record halted.stats { rejected_count = add64 halted.stats.rejected_count 1 })))
rejection_is_counted_example =
    rejection_is_counted reference_only small_buy 40 halted halted-rejected
