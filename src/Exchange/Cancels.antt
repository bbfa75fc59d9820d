-- ===== src/Exchange/Cancels.antt =====
-- What EngineManager::process_command makes of the cancellation of a standing order.
use flux_trade.Prelude.{
  ℕ, ◌<◌, Bool, true, some, none, [], ◌∷◌, ◌++◌, ◌≡◌, refl, ap, ◌∙◌, sym, subst, arith, length, map,
}
use flux_trade.Domain.{Side, buy, Price, LiveOrder, ExecutionType, RejectReason}
use flux_trade.Common.Queue.{IsRing, contents}
use flux_trade.Book.Level.{PriceLevelNode}
use flux_trade.Book.Lookup
use flux_trade.Book.State.{LimitOrderBook, deref}
use flux_trade.Book.Ops
use flux_trade.Book.Valid.{IsValid}
use flux_trade.Book.Cancel.{Points, cancel-forgets}
use flux_trade.Matching.Context
use flux_trade.Matching.Context.{ExecutionReport, ExecutionContext, push}
use flux_trade.Matching.TradeBuilder.{build_cancel}
use flux_trade.Matching.Engine.{MatchingEngine, cancel_order, count_latency}
use flux_trade.Prelude.Words.{sub64, add64}
use flux_trade.Risk.Pipeline.{RiskTrace}
use flux_trade.Risk.Engine.{RiskEngine}
use flux_trade.Gateway.Commands.{CommandType, OrderCommand}
use flux_trade.Persistence.Survival.{entry_of}
use flux_trade.Exchange.Reports.{execution_report}
use flux_trade.Exchange.EngineManager.{
  EngineManager, Readings, forward, journal, finish_matching, process_command,
}
use flux_trade.Exchange.Commands.{Verdict, process_accepted, journal_joins, dispatch_joins}

-- The report of a cancelled order.
abbrev pub cancel_report : ℕ → ℕ → OrderCommand → LiveOrder → ExecutionReport
cancel_report exec_id timestamp cmd o = record {
  exec_id = exec_id;
  order_id = o.key.order_id;
  price = o.price;
  last_qty = 0;
  remaining_qty = 0;
  timestamp = timestamp;
  client_id = 1;
  account_id = cmd.account_id;
  symbol_id = cmd.symbol_id;
  reject_reason = RejectReason.none;
  exec_type = ExecutionType.cancel;
}

-- The engine once an order has been cancelled.
abbrev after_cancel : ℕ → ℕ → LimitOrderBook → MatchingEngine → MatchingEngine
after_cancel start end book e = count_latency (sub64 end start) (record e {
  book = book;
  exec_seq = add64 e.exec_seq 1;
  stats = record e.stats { orders_cancelled = add64 e.stats.orders_cancelled 1 };
})

cancel_order_lem :
    (id account symbol start timestamp end slot : ℕ) (e : MatchingEngine) (ctx : ExecutionContext)
    (o : LiveOrder) (book : LimitOrderBook)
    → Lookup.find id e.book.lookup ≡ some slot
    → deref slot e.book ≡ some o
    → Ops.cancel id e.book ≡ some (true, book)
    → cancel_order id 1 account symbol start timestamp end e ctx
      ≡ some (
        true,
        after_cancel start end book e,
        build_cancel e.exec_seq o 1 account symbol timestamp ctx,
      )
unfolding cancel_order
cancel_order_lem id account symbol start timestamp end slot e ctx o book found here done =
    ground arith

module _ (in_band : Price → Price → Bool) (base_close : Price) (gap : ℕ) (at : Readings)
    (cmd : OrderCommand) (m : EngineManager) (reason : RejectReason) (trace : RiskTrace)
    (risk : RiskEngine) where
  forward_cancel :
      (n : EngineManager) (matching : MatchingEngine) (ctx : ExecutionContext)
      → cancel_order cmd.orig_client_order_id 1 cmd.account_id cmd.symbol_id at.match_start
          at.match_time at.match_end n.matching
          (Context.reset n.exec_ctx)
        ≡ some (true, matching, ctx)
      → forward CommandType.cancel_order at cmd n
        ≡ some (finish_matching cmd.conn_id buy n matching ctx)
  unfolding forward
  forward_cancel n matching ctx h = ground arith

  only_report :
      (o : LiveOrder)
      → (build_cancel m.matching.exec_seq o 1 cmd.account_id cmd.symbol_id at.match_time
          (Context.reset m.exec_ctx)).reports
        ≡ cancel_report m.matching.exec_seq at.match_time cmd o ∷ []
  unfolding build_cancel push
  only_report o = refl

  -- On a valid book, the cancellation of an id that the lookup leads to a standing order, once the risk
  -- checks accept it, is processed. Where both queues are valid rings with room, the book is valid
  -- afterwards and its lookup has the id no more, the command is journalled, and one report goes out to
  -- its connection: that of the cancelled order, which says that its side is buy.
  pub cancel_command_is_reported :
      (o : LiveOrder) (s : Side) (l : PriceLevelNode)
      → Verdict in_band base_close gap at cmd m reason trace risk true
      → cmd.type ≡ CommandType.cancel_order
      → IsValid m.matching.book
      → Points cmd.orig_client_order_id o s l m.matching.book
      → IsRing m.journal_queue
      → length (contents m.journal_queue) < m.journal_queue.capacity
      → IsRing m.outbound_queue
      → length (contents m.outbound_queue) < m.outbound_queue.capacity
      → (m' : EngineManager) × (process_command in_band base_close gap at cmd m ≡ some m')
        × IsValid m'.matching.book
        × (Lookup.find cmd.orig_client_order_id m'.matching.book.lookup ≡ none)
        × (contents m'.journal_queue ≡ contents m.journal_queue ++ entry_of (λ c. gap) cmd ∷ [])
        × (contents m'.outbound_queue
            ≡ contents m.outbound_queue
              ++ execution_report cmd.conn_id buy
                  (cancel_report m.matching.exec_seq at.match_time cmd o)
                ∷ [])
  unfolding journal
  cancel_command_is_reported o s l h cancels v p vj room_j vo room_o =
      let m1 = journal gap cmd (record m { risk = risk }) in
      let id = cmd.orig_client_order_id in
      let (book, done, v', gone) = cancel-forgets id o s l m.matching.book v p in
      let matching = after_cancel at.match_start at.match_end book m.matching in
      let ctx =
        build_cancel m.matching.exec_seq o 1 cmd.account_id cmd.symbol_id at.match_time
          (Context.reset m.exec_ctx) in
      let runs =
        cancel_order_lem id cmd.account_id cmd.symbol_id at.match_start at.match_time at.match_end
          o.slot m.matching (Context.reset m.exec_ctx) o book p.0 p.1 done in
      let m2 : EngineManager = record m1 { matching = matching; exec_ctx = ctx } in
      let one = only_report o in
      let (ring, shown, matching', journal', ctx') =
        dispatch_joins cmd.conn_id buy ctx.reports m2 vo (omega (arith, ap length one, room_o)) in
      (
        finish_matching cmd.conn_id buy m1 matching ctx,
        process_accepted in_band base_close gap at cmd m reason trace risk h
            ∙ ap (λ t. forward t at cmd m1) cancels
            ∙ forward_cancel m1 matching ctx runs,
        subst (λ (e : MatchingEngine). IsValid e.book) (sym matching') v',
        ap (λ (e : MatchingEngine). Lookup.find cmd.orig_client_order_id e.book.lookup) matching'
            ∙ gone,
        ap contents journal'
            ∙ journal_joins in_band base_close gap at cmd m reason trace risk
                (record m { risk = risk }) vj room_j,
        shown
            ∙ ap (λ rs. contents m.outbound_queue ++ map (execution_report cmd.conn_id buy) rs) one,
      )
