-- ===== src/Exchange/Commands.antt =====
-- What EngineManager::process_command makes of a command.
use flux_trade.Prelude.{
  ℕ, ◌+◌, ◌<◌, ◌≤◌, Bool, true, false, some, List, [], ◌∷◌, ◌++◌, ◌≡◌, refl, ap, sym, ◌∙◌, subst,
  arith, length, length-append, append_assoc, append-nil, map,
}
use flux_trade.Prelude.Int.{ℤ}
use flux_trade.Prelude.Words.{sub64, u64_mod}
use flux_trade.Domain.{Side, Price, RejectReason}
use flux_trade.Common.Ring.{Ring, push}
use flux_trade.Common.Queue.{IsRing, contents, push_joins}
use flux_trade.Book.Valid.{IsValid}
use flux_trade.Book.Room.{Room}
use flux_trade.Matching.Submit.{submit_order-refines}
use flux_trade.Matching.Context
use flux_trade.Matching.Context.{ExecutionReport, ExecutionContext, MatchingResult}
use flux_trade.Matching.Engine.{MatchingEngine, submit_order}
use flux_trade.Risk.Pipeline.{RiskTrace}
use flux_trade.Risk.Engine.{RiskEngine, validate}
use flux_trade.Gateway.Commands.{CommandType, OrderCommand}
use flux_trade.Persistence.Journal.{LogEntry, append, log_entry, max_payload}
use flux_trade.Persistence.CommandBytes.{command_code, command_bytes, length-command_bytes}
use flux_trade.Persistence.Survival.{entry_of}
use flux_trade.Exchange.Reports.{execution_report}
use flux_trade.Exchange.EngineManager.{
  EngineManager, Readings, risk_context, order_of, feed_back, dispatch_reports, forward, journal,
  refuse, after_validation, finish_matching, process_command,
}

-- The state that dispatch_reports leaves to the loop.
pub dispatch_joins :
    (conn_id : ℤ) (side : Side) (rs : List ExecutionReport) (m : EngineManager)
    → IsRing m.outbound_queue
    → length (contents m.outbound_queue) + length rs ≤ m.outbound_queue.capacity
    → let m' = dispatch_reports conn_id side rs m in
      IsRing m'.outbound_queue
      × (contents m'.outbound_queue
          ≡ contents m.outbound_queue ++ map (execution_report conn_id side) rs)
      × (m'.matching ≡ m.matching)
      × (m'.journal_queue ≡ m.journal_queue)
      × (m'.exec_ctx ≡ m.exec_ctx)
unfolding dispatch_reports
dispatch_joins conn_id side [] m v room =
    (v, sym (append-nil (contents m.outbound_queue)), refl, refl, refl)
dispatch_joins conn_id side (r ∷ rs) m v room =
    let report = execution_report conn_id side r in
    let (v', joined, same) = push_joins report m.outbound_queue v (omega (arith, room)) in
    let m' : EngineManager = record m {
      outbound_queue = (push report m.outbound_queue).1;
      risk = feed_back r.exec_type side r m.risk;
    } in
    let longer = length-append (contents m.outbound_queue) (report ∷ []) in
    let (ring, shown, matching, journal', ctx) =
      dispatch_joins conn_id side rs m' v' (omega (arith, room, same, ap length joined, longer)) in
    (
      ring,
      shown
          ∙ ap (λ xs. xs ++ map (execution_report conn_id side) rs) joined
          ∙ append_assoc (contents m.outbound_queue) (report ∷ [])
              (map (execution_report conn_id side) rs),
      matching,
      journal',
      ctx,
    )

dispatch_keeps :
    (conn_id : ℤ) (side : Side) (rs : List ExecutionReport) (m : EngineManager)
    → (dispatch_reports conn_id side rs m).matching ≡ m.matching
unfolding dispatch_reports
dispatch_keeps conn_id side [] m = refl
dispatch_keeps conn_id side (r ∷ rs) m = dispatch_keeps conn_id side rs _

append_fits :
    (queue : Ring LogEntry) (sequence timestamp msg_type : ℕ) (payload : List ℕ)
    → length payload ≤ max_payload
    → append queue sequence timestamp msg_type payload
      ≡ push (log_entry sequence timestamp msg_type payload) queue
unfolding append
append_fits queue sequence timestamp msg_type payload h = ground arith

-- What process_command does after each verdict of the risk engine.
module _ (in_band : Price → Price → Bool) (base_close : Price) (gap : ℕ) (at : Readings)
    (cmd : OrderCommand) (m : EngineManager) (reason : RejectReason) (trace : RiskTrace)
    (risk : RiskEngine) where
  abbrev pub Verdict : Bool → Type 0
  Verdict ok =
      validate in_band (risk_context base_close cmd) [] (sub64 at.risk_end at.risk_start) m.risk
      ≡ (reason, ok, trace, risk)

  process_refused :
      Verdict false
      → process_command in_band base_close gap at cmd m
        ≡ some (refuse reason at cmd (record m { risk = risk }))
  unfolding process_command
  process_refused h = ap (after_validation gap at cmd m) h

  pub process_accepted :
      Verdict true
      → process_command in_band base_close gap at cmd m
        ≡ forward cmd.type at cmd (journal gap cmd (record m { risk = risk }))
  unfolding process_command
  process_accepted h = ap (after_validation gap at cmd m) h

  -- The entry of the command in a journal with room for it.
  pub journal_joins :
      (n : EngineManager)
      → IsRing n.journal_queue
      → length (contents n.journal_queue) < n.journal_queue.capacity
      → contents (journal gap cmd n).journal_queue
        ≡ contents n.journal_queue ++ entry_of (λ c. gap) cmd ∷ []
  unfolding journal
  journal_joins n v room =
      let small : length (command_bytes gap cmd) ≤ max_payload =
        omega (arith, length-command_bytes gap cmd) in
      ap (λ (p : Bool × Ring LogEntry). contents p.1)
        (append_fits n.journal_queue cmd.sequence cmd.timestamp (command_code cmd.type)
          (command_bytes gap cmd) small)
      ∙ (push_joins (entry_of (λ c. gap) cmd) n.journal_queue v room).1

  forward_new_order :
      (n : EngineManager) (result : MatchingResult) (matching : MatchingEngine)
      (ctx : ExecutionContext)
      → submit_order
          (order_of at.exchange_time cmd)
          at.match_start
          at.match_time
          at.match_end
          n.matching
          (Context.reset n.exec_ctx)
        ≡ some (result, matching, ctx)
      → forward CommandType.new_order at cmd n
        ≡ some (finish_matching cmd.conn_id cmd.side n matching ctx)
  unfolding forward
  forward_new_order n result matching ctx h = ground arith

  -- A new order that the risk checks accept and on which submit_order returns is processed, and
  -- where both queues are valid rings with room, it is journalled, whatever came of it, and its
  -- reports go out to its connection, each once and in the engine's order.
  pub accepted_order_is_reported :
      (result : MatchingResult) (matching : MatchingEngine) (ctx : ExecutionContext)
      → Verdict true
      → cmd.type ≡ CommandType.new_order
      → submit_order
          (order_of at.exchange_time cmd)
          at.match_start
          at.match_time
          at.match_end
          m.matching
          (Context.reset m.exec_ctx)
        ≡ some (result, matching, ctx)
      → IsRing m.journal_queue
      → length (contents m.journal_queue) < m.journal_queue.capacity
      → IsRing m.outbound_queue
      → length (contents m.outbound_queue) + length ctx.reports ≤ m.outbound_queue.capacity
      → (m' : EngineManager) × (process_command in_band base_close gap at cmd m ≡ some m')
        × (m'.matching ≡ matching)
        × (m'.exec_ctx ≡ ctx)
        × (contents m'.journal_queue ≡ contents m.journal_queue ++ entry_of (λ c. gap) cmd ∷ [])
        × (contents m'.outbound_queue
            ≡ contents m.outbound_queue ++ map (execution_report cmd.conn_id cmd.side) ctx.reports)
  unfolding journal
  accepted_order_is_reported result matching ctx h new runs vj room_j vo room_o =
      let m1 = journal gap cmd (record m { risk = risk }) in
      let m2 : EngineManager = record m1 { matching = matching; exec_ctx = ctx } in
      let (ring, shown, matching', journal', ctx') =
        dispatch_joins cmd.conn_id cmd.side ctx.reports m2 vo room_o in
      (
        finish_matching cmd.conn_id cmd.side m1 matching ctx,
        process_accepted h
            ∙ ap (λ t. forward t at cmd m1) new
            ∙ forward_new_order m1 result matching ctx runs,
        matching',
        ctx',
        ap contents journal' ∙ journal_joins (record m { risk = risk }) vj room_j,
        shown,
      )

  -- On a valid book with room in its pools, a new order of a quantity below 2 ^ 64 is processed, whatever
  -- the risk checks say and however full the queues are, and the book is valid afterwards.
  pub new_order_keeps_book :
      (ok : Bool)
      → Verdict ok
      → cmd.type ≡ CommandType.new_order
      → IsValid m.matching.book
      → Room m.matching.book
      → cmd.qty < u64_mod
      → (m' : EngineManager) × (process_command in_band base_close gap at cmd m ≡ some m')
        × IsValid m'.matching.book
  unfolding refuse journal order_of
  new_order_keeps_book false h new v room small = (_, process_refused h, v)
  new_order_keeps_book true h new v room small =
      let m1 = journal gap cmd (record m { risk = risk }) in
      let (result, matching, ctx, runs, v', swept, status) =
        submit_order-refines (order_of at.exchange_time cmd) at.match_start at.match_time
          at.match_end m.matching (Context.reset m.exec_ctx) v room small in
      (
        finish_matching cmd.conn_id cmd.side m1 matching ctx,
        process_accepted h
            ∙ ap (λ t. forward t at cmd m1) new
            ∙ forward_new_order m1 result matching ctx runs,
        subst (λ (e : MatchingEngine). IsValid e.book)
            (sym (
              dispatch_keeps cmd.conn_id cmd.side ctx.reports
                (record m1 { matching = matching; exec_ctx = ctx })))
            v',
      )
