-- ===== src/Exchange/Venue.antt =====
-- exchange/src/exchange.cpp: the exchange, with its threads' loops as rounds. The engines share the
-- dispatcher's queues and the outbound queue, which stand here once.
use flux_trade.Prelude.{ℕ, zero, suc, Bool, Option, none, some, List, [], ◌∷◌, ◌++◌, ◌>>=◌}
use flux_trade.Domain.{Price}
use flux_trade.Common.Table.{put}
use flux_trade.Common.Ring.{Ring, pop}
use flux_trade.Gateway.Protocol.{MessageType, Packet}
use flux_trade.Gateway.Commands.{OrderCommand}
use flux_trade.Gateway.Inbound.{Gateway, send_packet}
use flux_trade.Exchange.Reports.{OutboundReport}
use flux_trade.Exchange.Dispatcher.{Dispatcher, slot_of_symbol, dispatch}
use flux_trade.Exchange.EngineManager.{EngineManager, Readings, run_round}

-- An engine of the vector, with the symbol that it was added for.
pub record Engine : Type 0 where
  pub symbol_id : ℕ
  pub manager : EngineManager

pub record Exchange : Type 0 where
  pub gateway : Gateway
  pub dispatcher : Dispatcher
  pub outbound_queue : Ring OutboundReport
  pub engines : List Engine

-- add_symbol, with the manager that the engine starts with.
unfoldable pub add_symbol : ℕ → EngineManager → Exchange → Exchange
add_symbol symbol_id manager x = record x {
  engines = x.engines ++ record { symbol_id = symbol_id; manager = manager } ∷ [];
}

unfoldable pub submit_command : OrderCommand → Exchange → Bool × Exchange
submit_command cmd x =
    let (ok, queues) = dispatch cmd x.dispatcher in (ok, record x { dispatcher = queues })

-- A round of the loop of `poll` that follows the gateway's own poll; `none` is its end.
unfoldable pub drain_round :
    Ring OrderCommand × Dispatcher → Option (Ring OrderCommand × Dispatcher)
drain_round (inbound, queues) = elim (pop inbound) [
  | none ↦ none
  | some (cmd, inbound') ↦ some (inbound', (dispatch cmd queues).1)
]

-- The loop, which ends when the queue is empty; each round takes one command from it.
unfoldable pub drain : ℕ → Ring OrderCommand × Dispatcher → Option (Ring OrderCommand × Dispatcher)
drain zero s = none
drain (suc fuel) s = elim (drain_round s) [ none ↦ some s | some s' ↦ drain fuel s' ]

-- `poll`, behind the gateway's poll.
unfoldable pub poll : ℕ → Exchange → Option Exchange
poll fuel x = do
  (inbound, queues) ← drain fuel (x.gateway.inbound_queue, x.dispatcher)
  some (record x { gateway = record x.gateway { inbound_queue = inbound }; dispatcher = queues })

-- A round of an engine's thread, on the shared queues.
unfoldable pub engine_round :
    (Price → Price → Bool)
    → Price
    → ℕ
    → Readings
    → Engine
    → Dispatcher × Ring OutboundReport
    → Option (Engine × Dispatcher × Ring OutboundReport)
engine_round in_band base_close gap at e (queues, outbound) =
    let slot = slot_of_symbol e.symbol_id in
    do
      (queue, m) ←
          run_round in_band base_close gap at
            (queues slot, record e.manager { outbound_queue = outbound })
      some (record e { manager = m }, put slot queue queues, m.outbound_queue)

-- The type that a report is sent as.
abbrev pub report_type : Packet → Option MessageType
report_type (Packet.execution p) = some MessageType.execution_report
report_type (Packet.rejection p) = some MessageType.reject
report_type (Packet.login_response p) = none
report_type Packet.echo = none

unfoldable pub send_report : OutboundReport → Gateway → Gateway
send_report report g = elim (report_type report.packet) [
  | none ↦ g
  | some type ↦
      send_packet report.conn_id type report.header.sequence report.header.timestamp report.packet g
]

-- A round of run_response_loop.
unfoldable pub response_round : Ring OutboundReport × Gateway → Ring OutboundReport × Gateway
response_round (outbound, g) = elim (pop outbound) [
  | none ↦ (outbound, g)
  | some (report, outbound') ↦ (outbound', send_report report g)
]

abbrev pub response_rounds : ℕ → Ring OutboundReport × Gateway → Ring OutboundReport × Gateway
response_rounds zero s = s
response_rounds (suc n) s = response_rounds n (response_round s)
