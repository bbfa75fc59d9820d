-- ===== src/Matching/Outcome.antt =====
-- What a call of submit_order comes to: shares, the order of service, trades and the resting order.
use flux_trade.Prelude.{
  ℕ, zero, suc, ◌+◌, ◌%◌, ◌≤◌, ◌<◌, false, some, List, ◌++◌, ◌≡◌, ap, ◌∙◌, subst, arith, All, map,
  length, take,
}
use flux_trade.Prelude.Words.{u32_mod, u64_mod, add64}
use flux_trade.Domain.{Side, buy, sell, opposite, OrderType, Order, LiveOrder}
use flux_trade.Book.State.{LimitOrderBook, levels_of, orders_of}
use flux_trade.Book.Sums.{total}
use flux_trade.Book.Valid.{IsValid}
use flux_trade.Book.Room.{Room}
use flux_trade.Matching.Context.{ExecutionContext, MatchingResult, max_trades}
use flux_trade.Matching.TradeBuilder.{build_ack}
use flux_trade.Matching.Engine.{MatchingEngine, is_limit, accept, submit_order}
use flux_trade.Matching.Sweep.{Fill}
use flux_trade.Matching.SweepLaws.{
  sweep_conserves, sweep-Acceptable, Acceptable, sweep_serves_in_order, WholeButLast, leftover,
}
use flux_trade.Matching.Tape.{Tape, tape_of}
use flux_trade.Matching.Trades.{trades_of, trades-play, shares-play, counts-play}
use flux_trade.Matching.Finish.{status_of, Rests, RestsIn, Leaves, Left}
use flux_trade.Matching.Submit.{queue, swept_by, submit_order_lem}

own_side :
    (s : Side) (b c : LimitOrderBook)
    → levels_of (opposite (opposite s)) b ≡ levels_of (opposite (opposite s)) c
    → levels_of s b ≡ levels_of s c
own_side buy b c e = e
own_side sell b c e = e

Rests-of_Left :
    (order : Order) (left : ℕ) (b b' : LimitOrderBook)
    → order.type ≡ OrderType.limit
    → 0 < left
    → Left order left b b'
    → Rests order b b'
Rests-of_Left order zero b b' t h k = absurd (omega arith)
Rests-of_Left order (suc n) b b' t h k = subst (λ type. Leaves type order b b') t k

drops_of_Leaves :
    (type : OrderType) (order : Order) (b b' : LimitOrderBook)
    → is_limit type ≡ false
    → Leaves type order b b'
    → b' ≡ b
drops_of_Leaves OrderType.limit order b b' t h = cc
drops_of_Leaves OrderType.market order b b' t h = h
drops_of_Leaves OrderType.stop order b b' t h = h

drops_of_Left :
    (order : Order) (left : ℕ) (b b' : LimitOrderBook)
    → is_limit order.type ≡ false
    → Left order left b b'
    → b' ≡ b
drops_of_Left order zero b b' t h = h
drops_of_Left order (suc n) b b' t h = drops_of_Leaves order.type order b b' t h

module _ (order : Order) (start timestamp end : ℕ) (e : MatchingEngine) (ctx : ExecutionContext)
    (v : IsValid e.book) (r : Room e.book) (small : order.qty < u64_mod) where
  -- On a valid book with room in its pools, for a quantity and a count of shares below 2 ^ 64, what
  -- submit_order trades and what it leaves wanting add up to the order's quantity. The other side
  -- of the book loses exactly what is traded, the engine's count of shares grows by it modulo 2 ^
  -- 64, and the status tells whether anything was left.
  pub submit_order_conserves :
      e.stats.shares_executed < u64_mod
      → (res : MatchingResult) × (e' : MatchingEngine) × (ctx' : ExecutionContext) × (traded
          left : ℕ)
        × (submit_order order start timestamp end e ctx ≡ some (res, e', ctx'))
        × (left + traded ≡ order.qty)
        × (total (queue (opposite order.side) e'.book) + traded
            ≡ total (queue (opposite order.side) e.book))
        × (e'.stats.shares_executed ≡ add64 e.stats.shares_executed traded)
        × (res.status ≡ status_of order left)
  unfolding accept
  submit_order_conserves few =
      let (m, M, (res, e', ctx', runs, v', says, leaves, others, keeps, count)) =
        submit_order_lem order start timestamp end e ctx v r small in
      let (wanted, lost) = sweep_conserves order order.qty (queue (opposite order.side) e.book) in
      (
        res,
        e',
        ctx',
        _,
        _,
        runs,
        wanted,
        omega (arith, ap total (ap orders_of others ∙ M.queue), lost),
        keeps.0
            ∙ ap (λ (t : Tape). t.stats.shares_executed) M.tape
            ∙ shares-play order timestamp _ (tape_of (accept order timestamp e ctx)) few,
        says,
      )

  -- On a valid book with room in its pools and for a quantity below 2 ^ 64, submit_order fills the
  -- resting orders of the other side from the front of their queue, in price-time order: the fills'
  -- orders are the queue's first ones, each is used up before the next is touched, and what is
  -- behind them stays as it was. No fill is at a price beyond a limit order's limit or exceeds what
  -- the resting order has.
  pub submit_order_serves :
      (res : MatchingResult) × (e' : MatchingEngine) × (ctx' : ExecutionContext) × (fills : List
        Fill)
      × (untouched : List LiveOrder) × (submit_order order start timestamp end e ctx
          ≡ some (res, e', ctx'))
      × (queue (opposite order.side) e.book ≡ map (λ f. f.resting) fills ++ untouched)
      × (queue (opposite order.side) e'.book ≡ leftover fills untouched)
      × WholeButLast fills
      × All (λ f. Acceptable order f.resting.price × (f.qty ≤ f.resting.remaining_qty)) fills
  submit_order_serves =
      let (m, M, (res, e', ctx', runs, v', says, leaves, others, keeps, count)) =
        submit_order_lem order start timestamp end e ctx v r small in
      let (untouched, front, whole, rest) =
        sweep_serves_in_order order order.qty (queue (opposite order.side) e.book) in
      (
        res,
        e',
        ctx',
        (swept_by order e.book).fills,
        untouched,
        runs,
        front,
        ap orders_of others ∙ M.queue ∙ rest,
        whole,
        sweep-Acceptable order order.qty (queue (opposite order.side) e.book),
      )

  -- On a valid book with room in its pools, for a quantity and a trade number below 2 ^ 64 and a
  -- context of at most 128 trades, submit_order writes one trade for each fill behind those that
  -- the context holds, with consecutive ids and at the resting order's price, until the context's
  -- 128 places are full; what does not fit is not written. The engine's trade number and the
  -- result's count of trades go up by the number of all fills, modulo 2 ^ 64 and 2 ^ 32.
  pub submit_order_trades :
      length ctx.trades ≤ max_trades
      → e.trade_seq < u64_mod
      → (res : MatchingResult) × (e' : MatchingEngine) × (ctx' : ExecutionContext) × (submit_order
            order start timestamp end e ctx
          ≡ some (res, e', ctx'))
        × (let fills = (swept_by order e.book).fills in
            (ctx'.trades
              ≡ take max_trades (ctx.trades ++ trades_of order timestamp e.trade_seq fills))
            × (e'.trade_seq ≡ add64 e.trade_seq (length fills))
            × (res.trades_generated ≡ length fills % u32_mod))
  unfolding accept build_ack
  submit_order_trades fits few =
      let (m, M, (res, e', ctx', runs, v', says, leaves, others, keeps, count)) =
        submit_order_lem order start timestamp end e ctx v r small in
      let t = tape_of (accept order timestamp e ctx) in
      let (seq, generated) =
        counts-play order timestamp (swept_by order e.book).fills t few (omega arith) in
      (
        res,
        e',
        ctx',
        runs,
        (
          keeps.3 ∙ ap (λ (t : Tape). t.ctx.trades) M.tape ∙ trades-play order timestamp _ t fits,
          keeps.2 ∙ ap (λ (t : Tape). t.trade_seq) M.tape ∙ seq,
          count ∙ ap (λ (t : Tape). t.trades_generated) M.tape ∙ generated ∙ omega arith,
        ),
      )

  -- On a valid book with room in its pools and for a quantity below 2 ^ 64, a limit order that is
  -- left wanting rests on its own side: it joins the tail of its price's level, or opens the level,
  -- and every other price finds what it found. It rests with the whole quantity that it was
  -- submitted with, not with what is left of it.
  pub submit_order-Rests :
      order.type ≡ OrderType.limit
      → 0 < (swept_by order e.book).left
      → (res : MatchingResult) × (e' : MatchingEngine) × (ctx' : ExecutionContext) × (submit_order
            order start timestamp end e ctx
          ≡ some (res, e', ctx'))
        × Rests order e.book e'.book
  unfolding accept
  submit_order-Rests t h =
      let (m, M, (res, e', ctx', runs, v', says, leaves, others, keeps, count)) =
        submit_order_lem order start timestamp end e ctx v r small in
      let own = own_side order.side m.engine.book e.book M.own_side in
      (
        res,
        e',
        ctx',
        runs,
        subst (λ ls. RestsIn order ls e'.book) own
            (Rests-of_Left order _ m.engine.book e'.book t h leaves),
      )

  -- On a valid book with room in its pools and for a quantity below 2 ^ 64, a market or stop order
  -- never rests: its own side of the book is as it was. Where something is left, a market order is
  -- reported expired, a stop order successful.
  pub submit_order_drops :
      is_limit order.type ≡ false
      → (res : MatchingResult) × (e' : MatchingEngine) × (ctx' : ExecutionContext) × (submit_order
            order start timestamp end e ctx
          ≡ some (res, e', ctx'))
        × (levels_of order.side e'.book ≡ levels_of order.side e.book)
        × (res.status ≡ status_of order (swept_by order e.book).left)
  unfolding accept
  submit_order_drops t =
      let (m, M, (res, e', ctx', runs, v', says, leaves, others, keeps, count)) =
        submit_order_lem order start timestamp end e ctx v r small in
      let own = own_side order.side m.engine.book e.book M.own_side in
      (
        res,
        e',
        ctx',
        runs,
        ap (levels_of order.side) (drops_of_Left order _ m.engine.book e'.book t leaves) ∙ own,
        says,
      )
