-- ===== src/Risk/Pipeline.antt =====
-- risk/include/risk/risk_engine.hpp: the pipeline of policies, and the trace of risk_context.hpp. The
-- names of the stages are constructors, and the latencies, 0 in a build without FLUX_RISK_TRACE_FINE,
-- are left out.
use flux_trade.Prelude.{ℕ, Bool, true, false, List, [], ◌∷◌, ◌%◌, if◌then◌else◌, ◌==◌, ◌&&◌}
use flux_trade.Domain.{Price, RejectReason}
use flux_trade.Matching.Context.{push}
use flux_trade.Risk.Context.{RiskContext, RiskLimits}
use flux_trade.Risk.Credit
use flux_trade.Risk.Credit.{Accounts, account_state, write_account}
use flux_trade.Risk.Margin
use flux_trade.Risk.Margin.{Positions, position_state}
use flux_trade.Risk.Duplicates.{SeenIds, check_duplicate}
use flux_trade.Risk.RateLimit.{Tracker, check_rate}
use flux_trade.Risk.Gates.{
  Switches, kill_switch, circuit_breaker, fat_finger, price_band, self_trade,
}

pub data Stage : Type 0 where
  kill_switch_stage circuit_breaker_stage duplicate_check rate_limit_stage : Stage
  fat_finger_stage price_band_stage self_trade_stage position_limit credit_limit : Stage

abbrev pub reject_reason : Stage → RejectReason
reject_reason Stage.kill_switch_stage = RejectReason.risk_limit_exceeded
reject_reason Stage.circuit_breaker_stage = RejectReason.risk_limit_exceeded
reject_reason Stage.duplicate_check = RejectReason.duplicate_order
reject_reason Stage.rate_limit_stage = RejectReason.risk_limit_exceeded
reject_reason Stage.fat_finger_stage = RejectReason.invalid_quantity
reject_reason Stage.price_band_stage = RejectReason.invalid_price
reject_reason Stage.self_trade_stage = RejectReason.risk_limit_exceeded
reject_reason Stage.position_limit = RejectReason.risk_limit_exceeded
reject_reason Stage.credit_limit = RejectReason.risk_limit_exceeded

-- RiskEngine::PipelineContext.
pub record PipelineContext : Type 0 where
  pub credit : Accounts
  pub margin : Positions
  pub duplicates : SeenIds
  pub rate_limits : ℕ → Tracker

-- A stage and whether it has accepted.
abbrev pub RiskTrace : Type 0
RiskTrace = List (Stage × Bool)

abbrev pub add_stage : Stage → Bool → RiskTrace → RiskTrace
add_stage stage ok trace = push 16 (stage, ok) trace

-- get_position_state writes the ids of a slot that has none.
unfoldable pub touch_position : ℕ → ℕ → Positions → Positions
touch_position account symbol positions a s =
    if a == account % 128 && s == symbol % 32
    then position_state account symbol positions
    else positions a s

module _ (in_band : Price → Price → Bool) (sw : Switches) (ctx : RiskContext)
    (limits : RiskLimits) where
  -- Policy::validate of each stage.
  unfoldable pub check : Stage → PipelineContext → Bool × PipelineContext
  check Stage.kill_switch_stage pc = (kill_switch ctx limits sw, pc)
  check Stage.circuit_breaker_stage pc = (circuit_breaker sw, pc)
  check Stage.duplicate_check pc =
      let (ok, seen) = check_duplicate ctx.client_order_id pc.duplicates in
      (ok, record pc { duplicates = seen })
  check Stage.rate_limit_stage pc =
      let (ok, trackers) =
        check_rate ctx.account_id ctx.timestamp limits.max_orders_per_sec pc.rate_limits in
      (ok, record pc { rate_limits = trackers })
  check Stage.fat_finger_stage pc = (fat_finger ctx limits, pc)
  check Stage.price_band_stage pc = (price_band in_band ctx, pc)
  check Stage.self_trade_stage pc = (self_trade ctx, pc)
  check Stage.position_limit pc =
      let state = position_state ctx.account_id ctx.symbol_id pc.margin in
      (
        Margin.validate ctx state,
        record pc { margin = touch_position ctx.account_id ctx.symbol_id pc.margin },
      )
  check Stage.credit_limit pc =
      let state = account_state ctx.account_id pc.credit in
      (
        Credit.validate ctx limits state,
        record pc { credit = write_account ctx.account_id state pc.credit },
      )

  -- The stages in turn, up to the first that rejects.
  unfoldable pub run_stages :
      List Stage → PipelineContext → RiskTrace → RejectReason × Bool × PipelineContext × RiskTrace
  run_stages [] pc trace = (RejectReason.none, true, pc, trace)
  run_stages (stage ∷ stages) pc trace =
      let (ok, pc') = check stage pc in
      let trace' = add_stage stage ok trace in
      let next = run_stages stages pc' trace' in
      if ok then next else (reject_reason stage, false, pc', trace')

abbrev pub policies : List Stage
policies =
    Stage.kill_switch_stage ∷ Stage.circuit_breaker_stage ∷ Stage.duplicate_check
    ∷ Stage.rate_limit_stage ∷ Stage.fat_finger_stage ∷ Stage.price_band_stage
    ∷ Stage.self_trade_stage ∷ Stage.position_limit ∷ Stage.credit_limit ∷ []
