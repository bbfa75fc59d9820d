-- ===== src/Exchange/EngineManager.antt =====
-- exchange/include/exchange/engine_manager.hpp, without its thread. The readings of the clock during a
-- command are arguments, `base_close` is Price::from_double(100.00), and `gap` is the byte of a command's
-- padding that nothing sets.
use flux_trade.Prelude.{ℕ, ◌/◌, Bool, true, false, Option, none, some, List, [], ◌∷◌, ◌>>=◌}
use flux_trade.Prelude.Int.{ℤ}
use flux_trade.Prelude.Words.{mul64, sub64, to_u64}
use flux_trade.Domain.{Side, buy, Price, ExecutionType, RejectReason, Order}
use flux_trade.Common.Ring.{Ring, push, pop}
use flux_trade.Matching.Context
use flux_trade.Matching.Context.{ExecutionReport, ExecutionContext}
use flux_trade.Matching.Engine.{MatchingEngine, submit_order, cancel_order}
use flux_trade.Risk.Context.{RiskContext}
use flux_trade.Risk.Pipeline.{RiskTrace}
use flux_trade.Risk.Engine.{RiskEngine, validate, update_on_fill, cancelled}
use flux_trade.Gateway.Commands.{CommandType, OrderCommand}
use flux_trade.Persistence.Journal.{LogEntry, append}
use flux_trade.Persistence.CommandBytes.{command_code, command_bytes}
use flux_trade.Exchange.Reports.{OutboundReport, execution_report, reject_report}

pub record EngineManager : Type 0 where
  pub outbound_queue : Ring OutboundReport
  pub journal_queue : Ring LogEntry
  pub matching : MatchingEngine
  pub risk : RiskEngine
  pub exec_ctx : ExecutionContext

-- What the clock shows while a command is processed.
pub record Readings : Type 0 where
  pub risk_start : ℕ
  pub risk_end : ℕ
  pub reject_time : ℕ
  pub exchange_time : ℕ
  pub match_start : ℕ
  pub match_time : ℕ
  pub match_end : ℕ

unfoldable pub risk_context : Price → OrderCommand → RiskContext
risk_context base_close cmd = record {
  order_id = cmd.client_order_id;
  price = cmd.price;
  qty = cmd.qty;
  timestamp = cmd.timestamp;
  reference_price = base_close;
  client_order_id = cmd.client_order_id;
  symbol_id = cmd.symbol_id;
  client_id = 1;
  account_id = cmd.account_id;
  side = cmd.side;
  type = cmd.order_type;
}

unfoldable pub order_of : ℕ → OrderCommand → Order
order_of exchange_time cmd = record {
  order_id = cmd.client_order_id;
  price = cmd.price;
  qty = cmd.qty;
  seq_num = cmd.sequence;
  client_timestamp = cmd.timestamp;
  exchange_timestamp = exchange_time;
  client_id = 1;
  account_id = cmd.account_id;
  symbol_id = cmd.symbol_id;
  side = cmd.side;
  type = cmd.order_type;
  tif = cmd.tif;
  flags = 0;
}

-- What a report tells the risk engine.
unfoldable pub feed_back : ExecutionType → Side → ExecutionReport → RiskEngine → RiskEngine
feed_back ExecutionType.trade side r risk =
    update_on_fill r.account_id r.symbol_id side r.last_qty (to_u64 r.price) risk
feed_back ExecutionType.cancel side r risk =
    cancelled r.account_id (mul64 (to_u64 r.price) r.last_qty / 1000000) risk
feed_back ExecutionType.new side r risk = risk
feed_back ExecutionType.reject side r risk = risk

-- The loop of dispatch_reports over the reports of the context.
unfoldable pub dispatch_reports : ℤ → Side → List ExecutionReport → EngineManager → EngineManager
dispatch_reports conn_id side [] m = m
dispatch_reports conn_id side (r ∷ rs) m = dispatch_reports conn_id side rs (record m {
  outbound_queue = (push (execution_report conn_id side r) m.outbound_queue).1;
  risk = feed_back r.exec_type side r m.risk;
})

-- What the matching engine has returned.
abbrev pub finish_matching :
    ℤ → Side → EngineManager → MatchingEngine → ExecutionContext → EngineManager
finish_matching conn_id side m matching ctx =
    dispatch_reports conn_id side ctx.reports (record m { matching = matching; exec_ctx = ctx })

-- The forwarding of a command that has passed the risk checks. A replacement is not forwarded.
unfoldable pub forward :
    CommandType → Readings → OrderCommand → EngineManager → Option EngineManager
forward CommandType.new_order at cmd m = do
  (result, matching, ctx) ←
      submit_order (order_of at.exchange_time cmd) at.match_start at.match_time at.match_end
        m.matching (Context.reset m.exec_ctx)
  some (finish_matching cmd.conn_id cmd.side m matching ctx)
forward CommandType.cancel_order at cmd m = do
  (found, matching, ctx) ←
      cancel_order cmd.orig_client_order_id 1 cmd.account_id cmd.symbol_id at.match_start
        at.match_time at.match_end m.matching (Context.reset m.exec_ctx)
  some (finish_matching cmd.conn_id buy m matching ctx)
forward CommandType.replace_order at cmd m = some m

-- A command in the journal's queue; a full queue drops it.
unfoldable pub journal : ℕ → OrderCommand → EngineManager → EngineManager
journal gap cmd m = record m {
  journal_queue =
      (append m.journal_queue cmd.sequence cmd.timestamp (command_code cmd.type)
        (command_bytes gap cmd)).1;
}

unfoldable pub refuse : RejectReason → Readings → OrderCommand → EngineManager → EngineManager
refuse reason at cmd m = record m {
  outbound_queue = (push (reject_report reason at.reject_time cmd) m.outbound_queue).1;
}

-- What follows the answer of the risk checks.
abbrev pub after_validation :
    ℕ
    → Readings
    → OrderCommand
    → EngineManager
    → RejectReason × Bool × RiskTrace × RiskEngine
    → Option EngineManager
after_validation gap at cmd m (reason, true, trace, risk) =
    forward cmd.type at cmd (journal gap cmd (record m { risk = risk }))
after_validation gap at cmd m (reason, false, trace, risk) =
    some (refuse reason at cmd (record m { risk = risk }))

unfoldable pub process_command :
    (Price → Price → Bool)
    → Price
    → ℕ
    → Readings
    → OrderCommand
    → EngineManager
    → Option EngineManager
process_command in_band base_close gap at cmd m =
    after_validation gap at cmd m
      (validate in_band (risk_context base_close cmd) [] (sub64 at.risk_end at.risk_start) m.risk)

-- The body of the loop of `run`, with the queue that it reads.
unfoldable pub run_round :
    (Price → Price → Bool)
    → Price
    → ℕ
    → Readings
    → Ring OrderCommand × EngineManager
    → Option (Ring OrderCommand × EngineManager)
run_round in_band base_close gap at (queue, m) = elim (pop queue) [
  | none ↦ some (queue, m)
  | some (cmd, queue') ↦ do m' ← process_command in_band base_close gap at cmd m; some (queue', m')
]
