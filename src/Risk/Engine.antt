-- ===== src/Risk/Engine.antt =====
-- risk/src/risk_engine.cpp. The elapsed time is an argument, as is the comparison of the price band.
use flux_trade.Prelude.{ℕ, Bool, false, [], ◌∷◌, ltb, if◌then◌else◌}
use flux_trade.Prelude.Int.{pos}
use flux_trade.Prelude.Words.{add64, mul64}
use flux_trade.Domain.{Side, Price, RejectReason}
use flux_trade.Risk.Context.{RiskContext, RiskLimits, SelfTradePreventionMode}
use flux_trade.Risk.Credit
use flux_trade.Risk.Credit.{cost_of, update_on_accept, update_on_cancel}
use flux_trade.Risk.Margin
use flux_trade.Risk.Duplicates
use flux_trade.Risk.RateLimit
use flux_trade.Risk.Gates.{Switches, all_clear}
use flux_trade.Risk.Pipeline.{Stage, PipelineContext, RiskTrace, run_stages, policies}

pub record RiskStatistics : Type 0 where
  pub accepted_count : ℕ
  pub rejected_count : ℕ
  pub credit_rejects : ℕ
  pub position_rejects : ℕ
  pub price_band_rejects : ℕ
  pub fat_finger_rejects : ℕ
  pub stp_rejects : ℕ
  pub kill_switch_rejects : ℕ
  pub duplicate_rejects : ℕ
  pub rate_limit_rejects : ℕ
  pub circuit_breaker_rejects : ℕ
  pub total_latency_ns : ℕ
  pub max_latency_ns : ℕ

abbrev pub no_counts : RiskStatistics
no_counts = record {
  accepted_count = 0;
  rejected_count = 0;
  credit_rejects = 0;
  position_rejects = 0;
  price_band_rejects = 0;
  fat_finger_rejects = 0;
  stp_rejects = 0;
  kill_switch_rejects = 0;
  duplicate_rejects = 0;
  rate_limit_rejects = 0;
  circuit_breaker_rejects = 0;
  total_latency_ns = 0;
  max_latency_ns = 0;
}

unfoldable pub record_risk_latency : ℕ → RiskStatistics → RiskStatistics
record_risk_latency ns s = record s {
  total_latency_ns = add64 s.total_latency_ns ns;
  max_latency_ns = if ltb s.max_latency_ns ns then ns else s.max_latency_ns;
}

pub record RiskEngine : Type 0 where
  pub limits : RiskLimits
  pub stats : RiskStatistics
  pub context : PipelineContext
  pub switches : Switches

-- The counter of a stage, where the reason alone does not tell it.
unfoldable pub count_stage : Stage → RiskStatistics → RiskStatistics
count_stage Stage.kill_switch_stage s = record s {
  kill_switch_rejects = add64 s.kill_switch_rejects 1;
}
count_stage Stage.circuit_breaker_stage s = record s {
  circuit_breaker_rejects = add64 s.circuit_breaker_rejects 1;
}
count_stage Stage.rate_limit_stage s = record s {
  rate_limit_rejects = add64 s.rate_limit_rejects 1;
}
count_stage Stage.self_trade_stage s = record s { stp_rejects = add64 s.stp_rejects 1 }
count_stage Stage.position_limit s = record s { position_rejects = add64 s.position_rejects 1 }
count_stage Stage.credit_limit s = record s { credit_rejects = add64 s.credit_rejects 1 }
count_stage Stage.duplicate_check s = s
count_stage Stage.fat_finger_stage s = s
count_stage Stage.price_band_stage s = s

-- The first stage of the trace that has rejected.
unfoldable pub count_first : RiskTrace → RiskStatistics → RiskStatistics
count_first [] s = s
count_first ((stage, ok) ∷ trace) s = if ok then count_first trace s else count_stage stage s

unfoldable pub count_reject : RejectReason → RiskTrace → RiskStatistics → RiskStatistics
count_reject RejectReason.duplicate_order trace s = record s {
  duplicate_rejects = add64 s.duplicate_rejects 1;
}
count_reject RejectReason.invalid_price trace s = record s {
  price_band_rejects = add64 s.price_band_rejects 1;
}
count_reject RejectReason.invalid_quantity trace s = record s {
  fat_finger_rejects = add64 s.fat_finger_rejects 1;
}
count_reject RejectReason.risk_limit_exceeded trace s = count_first trace s
count_reject RejectReason.none trace s = s
count_reject RejectReason.invalid_symbol trace s = s
count_reject RejectReason.order_not_found trace s = s

abbrev accepted : RiskContext → PipelineContext → ℕ → RiskEngine → RiskEngine
accepted ctx pc ns e = record e {
  context = record pc { credit = update_on_accept ctx.account_id (cost_of ctx) pc.credit };
  stats =
      record_risk_latency ns (record e.stats { accepted_count = add64 e.stats.accepted_count 1 });
}

abbrev rejected : RejectReason → RiskTrace → PipelineContext → ℕ → RiskEngine → RiskEngine
rejected reason trace pc ns e = record e {
  context = pc;
  stats = record_risk_latency ns (
      count_reject reason trace
        (record e.stats { rejected_count = add64 e.stats.rejected_count 1 }));
}

-- The reason is `none` where the order is accepted.
unfoldable pub validate :
    (Price → Price → Bool)
    → RiskContext
    → RiskTrace
    → ℕ
    → RiskEngine
    → RejectReason × Bool × RiskTrace × RiskEngine
validate in_band ctx trace ns e =
    let (reason, ok, pc, trace') =
      run_stages in_band e.switches ctx e.limits policies e.context trace in
    (reason, ok, trace', if ok then accepted ctx pc ns e else rejected reason trace' pc ns e)

unfoldable pub update_on_fill : ℕ → ℕ → Side → ℕ → ℕ → RiskEngine → RiskEngine
update_on_fill account symbol side qty price_ticks e = record e {
  context = record e.context {
    margin = Margin.update_on_fill account symbol side qty e.context.margin;
    credit = Credit.update_on_fill account (mul64 qty price_ticks) e.context.credit;
  };
}

unfoldable pub cancelled : ℕ → ℕ → RiskEngine → RiskEngine
cancelled account cost e = record e {
  context = record e.context { credit = update_on_cancel account cost e.context.credit };
}

unfoldable pub reset : RiskEngine
reset = record {
  limits = record {
    max_credit_limit = 1000000000000000;
    max_daily_exposure = 2000000000000000;
    max_order_qty = 10000000000;
    max_order_price = pos 500000000000;
    stp_mode = SelfTradePreventionMode.cancel_new;
    max_orders_per_sec = 100;
    kill_switch_active = false;
  };
  stats = no_counts;
  context = record {
    credit = Credit.reset;
    margin = Margin.reset;
    duplicates = Duplicates.reset;
    rate_limits = RateLimit.reset;
  };
  switches = all_clear;
}
