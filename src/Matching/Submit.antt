-- ===== src/Matching/Submit.antt =====
-- MatchingEngine::submit_order as a whole.
use flux_trade.Prelude.{ℕ, ◌<◌, some, List, ◌≡◌, refl, ap, sym, ◌∙◌, subst, arith}
use flux_trade.Prelude.Words.{u64_mod, sub64}
use flux_trade.Domain.{Side, opposite, Order, LiveOrder}
use flux_trade.Book.State.{LimitOrderBook, levels_of, orders_of}
use flux_trade.Book.Valid.{IsValid}
use flux_trade.Matching.Context.{ExecutionContext, MatchingResult}
use flux_trade.Matching.Engine.{
  MatchingEngine, Matching, accept, match_levels, rounds, submit_order, count_latency,
}
use flux_trade.Matching.Statistics.{record_latency, count_bucket}
use flux_trade.Matching.Sweep.{Swept, sweep}
use flux_trade.Matching.AllLevels.{Matched, match_levels_lem}
use flux_trade.Book.Room.{Room}
use flux_trade.Matching.SweepLaws.{FrontBlocked, sweep_stops}
use flux_trade.Matching.Finish.{status_of, Left, Keeps, finish_order_lem}
use flux_trade.Matching.Ready.{Ready-side, unshadowed_side}

-- The resting orders of a side in price-time order.
abbrev pub queue : Side → LimitOrderBook → List LiveOrder
queue s b = orders_of (levels_of s b)

-- What the sweep makes of an order against the other side of a book.
abbrev pub swept_by : Order → LimitOrderBook → Swept
swept_by order b = sweep order order.qty (queue (opposite order.side) b)

accept_book :
    (order : Order) (timestamp : ℕ) (e : MatchingEngine) (ctx : ExecutionContext)
    → ((accept order timestamp e ctx).engine.book ≡ e.book)
      × ((accept order timestamp e ctx).remaining_qty ≡ order.qty)
unfolding accept
accept_book order timestamp e ctx = (refl, refl)

-- On a valid book, for an order of a quantity below 2 ^ 64, the loops of submit_order end within
-- their fuel, and what they leave is what the sweep of the other side's queue says: that queue, the
-- quantity still wanted, and what was written for each fill. The order's own side is as it was, and
-- the book is valid.
pub matching-refines-sweep :
    (order : Order) (timestamp : ℕ) (e : MatchingEngine) (ctx : ExecutionContext)
    → IsValid e.book
    → order.qty < u64_mod
    → let start = accept order timestamp e ctx in
      (m : Matching) × (match_levels (rounds order e.book) order timestamp start ≡ some m)
      × Matched order timestamp start m (swept_by order e.book)
unfolding accept
matching-refines-sweep order timestamp e ctx v small =
    match_levels_lem order timestamp (rounds order e.book) (levels_of (opposite order.side) e.book)
      (accept order timestamp e ctx) (omega arith) refl (Ready-side (opposite order.side) e.book v)
      (unshadowed_side (opposite order.side) e.book v) small

Keeps-count_latency :
    (ns : ℕ) (m : Matching) (e' : MatchingEngine) (ctx' : ExecutionContext)
    → Keeps m e' ctx'
    → Keeps m (count_latency ns e') ctx'
unfolding record_latency count_bucket
Keeps-count_latency ns m e' ctx' (shares, trades, seq, kept) =
    (ground (arith, shares), ground (arith, trades), seq, kept)

-- All that is proved of a call, for the properties below to take from.
abbrev Submits : Order → ℕ → ℕ → ℕ → MatchingEngine → ExecutionContext → Matching → Type 0
Submits order start timestamp end e ctx m =
    (res : MatchingResult) × (e' : MatchingEngine) × (ctx' : ExecutionContext) × (submit_order order
        start timestamp end e ctx
      ≡ some (res, e', ctx'))
    × IsValid e'.book
    × (res.status ≡ status_of order (swept_by order e.book).left)
    × Left order (swept_by order e.book).left m.engine.book e'.book
    × (levels_of (opposite order.side) e'.book ≡ levels_of (opposite order.side) m.engine.book)
    × Keeps m e' ctx'
    × (res.trades_generated ≡ m.trades_generated)

pub submit_order_lem :
    (order : Order) (start timestamp end : ℕ) (e : MatchingEngine) (ctx : ExecutionContext)
    → IsValid e.book
    → Room e.book
    → order.qty < u64_mod
    → (m : Matching) × Matched order timestamp
        (accept order timestamp e ctx)
        m
        (swept_by order e.book)
      × Submits order start timestamp end e ctx m
unfolding submit_order accept
submit_order_lem order start timestamp end e ctx v r small =
    let (m, runs, M) = matching-refines-sweep order timestamp e ctx v small in
    let (status, e', ctx', ends, says, v', leaves, others, keeps) =
      finish_order_lem order timestamp m (swept_by order e.book).left M.left (M.valid v) (M.room r)
        small
        (λ h.
          subst (FrontBlocked order) (sym M.queue)
            (sweep_stops order order.qty (queue (opposite order.side) e.book) h)) in
    (
      m,
      M,
      (
        record { status = status; trades_generated = m.trades_generated },
        count_latency (sub64 end start) e',
        ctx',
        rw (runs, ends) refl,
        v',
        says,
        leaves,
        others,
        Keeps-count_latency (sub64 end start) m e' ctx' keeps,
        refl,
      ),
    )

-- On a valid book with room in its pools, for an order of a quantity below 2 ^ 64, submit_order
-- returns. The other side's queue is what the sweep leaves of it, and the status says what became
-- of the order. The book is valid afterwards, so it stays sorted, accounted for and uncrossed.
pub submit_order-refines :
    (order : Order) (start timestamp end : ℕ) (e : MatchingEngine) (ctx : ExecutionContext)
    → IsValid e.book
    → Room e.book
    → order.qty < u64_mod
    → (res : MatchingResult) × (e' : MatchingEngine) × (ctx' : ExecutionContext) × (submit_order
          order start timestamp end e ctx
        ≡ some (res, e', ctx'))
      × IsValid e'.book
      × (queue (opposite order.side) e'.book ≡ (swept_by order e.book).rest)
      × (res.status ≡ status_of order (swept_by order e.book).left)
submit_order-refines order start timestamp end e ctx v r small =
    let (m, M, (res, e', ctx', runs, v', says, leaves, others, keeps, count)) =
      submit_order_lem order start timestamp end e ctx v r small in
    (res, e', ctx', runs, v', ap orders_of others ∙ M.queue, says)
