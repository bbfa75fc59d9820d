-- ===== src/Matching/Finish.antt =====
-- Step 3 of submit_order: what becomes of the quantity that the loops have left.
use flux_trade.Prelude.{
  ℕ, zero, suc, ◌<◌, true, false, some, List, [], ◌∷◌, ◌++◌, ◌≡◌, refl, ap, ◌∙◌, subst, arith, All,
  ◌==◌, if◌then◌else◌, ltb→lt, lt→ltb,
}
use flux_trade.Prelude.Int.{◌<ℤ◌}
use flux_trade.Prelude.Words.{u64_mod, add64}
use flux_trade.Domain.{Side, buy, sell, opposite, OrderType, Price, price_eq, Order, LiveOrder}
use flux_trade.Book.Level
use flux_trade.Book.Level.{PriceLevelNode, is_empty}
use flux_trade.Book.Levels.{find_level}
use flux_trade.Book.State.{LimitOrderBook, levels_of, orders_of}
use flux_trade.Book.Ops.{live_of}
use flux_trade.Book.Sorted.{prices, Better, All-Better_trans}
use flux_trade.Book.Sums.{Resting}
use flux_trade.Book.Valid.{SideOk, IsValid, side-ok}
use flux_trade.Book.Opens.{Clear}
use flux_trade.Book.Insert.{target, insert-IsValid}
use flux_trade.Book.Room.{Room, allocate_of_has_free}
use flux_trade.Matching.Context.{
  ExecutionContext, MatchingStatus, success, partially_filled, filled, expired,
}
use flux_trade.Matching.TradeBuilder.{build_expiration}
use flux_trade.Matching.Engine.{
  MatchingEngine, Matching, blocked, beyond, finish_order, rest_or_expire,
}
use flux_trade.Matching.SweepLaws.{FrontBlocked}

-- The status that submit_order reports, from the quantity left unmatched.
abbrev pub rest_status : OrderType → Order → ℕ → MatchingStatus
rest_status OrderType.limit order left = if left == order.qty then success else partially_filled
rest_status OrderType.market order left = expired
rest_status OrderType.stop order left = success

abbrev pub status_of : Order → ℕ → MatchingStatus
status_of order zero = filled
status_of order (suc k) = rest_status order.type order (suc k)

All-above : (p : Price) (ps : List Price) → All (Better sell p) ps → All (λ ask. p <ℤ ask) ps
All-above p [] h = tt
All-above p (q ∷ ps) h = (ltb→lt _ _ h.0, All-above p ps h.1)

All-below : (p : Price) (ps : List Price) → All (Better buy p) ps → All (λ bid. bid <ℤ p) ps
All-below p [] h = tt
All-below p (q ∷ ps) h = (ltb→lt _ _ h.0, All-below p ps h.1)

Clear-of_All :
    (s : Side) (p : Price) (b : LimitOrderBook)
    → All (Better (opposite s) p) (prices (levels_of (opposite s) b))
    → Clear s p b
Clear-of_All buy p b h = All-above p (prices b.asks) h
Clear-of_All sell p b h = All-below p (prices b.bids) h

-- Being beyond a limit is being worse than it, in the order of the other side.
worse_of_beyond : (s : Side) (p q : Price) → beyond s p q ≡ true → Better (opposite s) p q
worse_of_beyond buy p q h = h
worse_of_beyond sell p q h = h

front_worse :
    (order : Order) (l : PriceLevelNode) (ls : List PriceLevelNode) (os : List LiveOrder)
    → l.orders ≡ os
    → is_empty os ≡ false
    → Resting l.price os
    → FrontBlocked order (os ++ orders_of ls)
    → Better (opposite order.side) order.price l.price
unfolding blocked
front_worse order l ls [] e h r f = cc
front_worse order l ls (o ∷ os) e h r f =
    let far : beyond order.side order.price o.price ≡ true = ground arith in
    subst (λ q. Better (opposite order.side) order.price q) r.0.0
      (worse_of_beyond order.side order.price o.price far)

worse_levels :
    (order : Order) (ls : List PriceLevelNode)
    → SideOk (opposite order.side) ls
    → FrontBlocked order (orders_of ls)
    → All (Better (opposite order.side) order.price) (prices ls)
unfolding orders_of
worse_levels order [] ok f = tt
worse_levels order (l ∷ ls) ok f =
    let far = front_worse order l ls l.orders refl ok.levels.0.filled ok.levels.0.resting f in
    (far, All-Better_trans (opposite order.side) order.price l.price (prices ls) far ok.ordered.0)

-- Where the other side starts beyond the limit, the order can rest without crossing it.
pub Clear-of_front :
    (order : Order) (b : LimitOrderBook)
    → IsValid b
    → FrontBlocked order (orders_of (levels_of (opposite order.side) b))
    → Clear order.side order.price b
Clear-of_front order b v f =
    Clear-of_All order.side order.price b
      (worse_levels order (levels_of (opposite order.side) b) (side-ok (opposite order.side) b v) f)

-- Where the order's own side finds a price afterwards, if the order joins the levels `ls`.
abbrev pub RestsIn : Order → List PriceLevelNode → LimitOrderBook → Type 0
RestsIn order ls b' =
    (slot lslot : ℕ) × ((q : Price)
      → find_level q (levels_of order.side b') ≡ (
          if price_eq order.price q
          then some (
              Level.join (live_of order slot order.seq_num)
                (target lslot order.price (find_level order.price ls)))
          else find_level q ls))

abbrev pub Rests : Order → LimitOrderBook → LimitOrderBook → Type 0
Rests order b b' = RestsIn order (levels_of order.side b) b'

-- What the last step leaves of the book, by the order's type where a quantity is left.
abbrev pub Leaves : OrderType → Order → LimitOrderBook → LimitOrderBook → Type 0
Leaves OrderType.limit order b b' = Rests order b b'
Leaves OrderType.market order b b' = b' ≡ b
Leaves OrderType.stop order b b' = b' ≡ b

-- The last step leaves the trades, and what is counted of them, as they are.
abbrev pub Keeps : Matching → MatchingEngine → ExecutionContext → Type 0
Keeps m e' ctx' =
    (e'.stats.shares_executed ≡ m.engine.stats.shares_executed)
    × (e'.stats.trades_executed ≡ m.engine.stats.trades_executed)
    × (e'.trade_seq ≡ m.engine.trade_seq)
    × (ctx'.trades ≡ m.ctx.trades)

abbrev Finishes : OrderType → Order → ℕ → Matching → Type 0
Finishes type order timestamp m =
    (status : MatchingStatus) × (e' : MatchingEngine) × (ctx' : ExecutionContext) × (rest_or_expire
        type order timestamp m
      ≡ some (status, e', ctx'))
    × (status ≡ rest_status type order m.remaining_qty)
    × IsValid e'.book
    × Leaves type order m.engine.book e'.book
    × (levels_of (opposite order.side) e'.book ≡ levels_of (opposite order.side) m.engine.book)
    × Keeps m e' ctx'

rest_or_expire_lem :
    (type : OrderType) (order : Order) (timestamp : ℕ) (m : Matching)
    → IsValid m.engine.book
    → Room m.engine.book
    → order.qty < u64_mod
    → Clear order.side order.price m.engine.book
    → Finishes type order timestamp m
unfolding rest_or_expire build_expiration
rest_or_expire_lem OrderType.limit order timestamp m v r small clear =
    let (slot, pool, free_order) = allocate_of_has_free m.engine.book.order_pool r.orders in
    let (lslot, lpool, free_level) = allocate_of_has_free m.engine.book.level_pool r.levels in
    let (b', inserts, v', reads, others) =
      insert-IsValid order order.seq_num slot lslot pool lpool m.engine.book free_order free_level
        small clear v in
    (
      if m.remaining_qty == order.qty then success else partially_filled,
      record m.engine { book = b' },
      m.ctx,
      rw inserts refl,
      refl,
      v',
      (slot, lslot, reads),
      others,
      (refl, refl, refl, refl),
    )
rest_or_expire_lem OrderType.market order timestamp m v r small clear =
    (_, _, _, refl, refl, v, refl, refl, (refl, refl, refl, refl))
rest_or_expire_lem OrderType.stop order timestamp m v r small clear =
    (_, _, _, refl, refl, v, refl, refl, (refl, refl, refl, refl))

-- What the last step leaves of the book: that of the remainder, or nothing new.
abbrev pub Left : Order → ℕ → LimitOrderBook → LimitOrderBook → Type 0
Left order zero b b' = b' ≡ b
Left order (suc _) b b' = Leaves order.type order b b'

pub finish_order_lem :
    (order : Order) (timestamp : ℕ) (m : Matching) (left : ℕ)
    → m.remaining_qty ≡ left
    → IsValid m.engine.book
    → Room m.engine.book
    → order.qty < u64_mod
    → (0 < left → FrontBlocked order (orders_of (levels_of (opposite order.side) m.engine.book)))
    → (status : MatchingStatus) × (e' : MatchingEngine) × (ctx' : ExecutionContext) × (finish_order
          order timestamp m
        ≡ some (status, e', ctx'))
      × (status ≡ status_of order left)
      × IsValid e'.book
      × Left order left m.engine.book e'.book
      × (levels_of (opposite order.side) e'.book ≡ levels_of (opposite order.side) m.engine.book)
      × Keeps m e' ctx'
unfolding finish_order
finish_order_lem order timestamp m zero e v r small stops =
    let stats = m.engine.stats in
    (
      filled,
      record m.engine { stats = record stats { orders_matched = add64 stats.orders_matched 1 } },
      m.ctx,
      ground arith,
      refl,
      v,
      refl,
      refl,
      (refl, refl, refl, refl),
    )
finish_order_lem order timestamp m (suc k) e v r small stops =
    let (status, e', ctx', runs, says, v', leaves, others, keeps) =
      rest_or_expire_lem order.type order timestamp m v r small
        (Clear-of_front order m.engine.book v (stops (omega arith))) in
    (
      status,
      e',
      ctx',
      rw (lt→ltb 0 m.remaining_qty (omega arith)) runs,
      says ∙ ap (rest_status order.type order) e,
      v',
      leaves,
      others,
      keeps,
    )
