-- ===== src/Matching/OneTrade.antt =====
-- One trade of submit_order's inner loop, at the front of the other side.
use flux_trade.Prelude.{
  ℕ, ◌-◌, ◌≤◌, ◌<◌, min, false, some, List, [], ◌∷◌, ◌≡◌, refl, ◌∙◌, ap, arith, ◌==◌,
}
use flux_trade.Prelude.Words.{u64_mod, sub32, sub64, add64, add32}
use flux_trade.Domain.{Side, buy, sell, opposite, Price, Order, LiveOrder, qty_sub}
use flux_trade.Book.Level.{PriceLevelNode}
use flux_trade.Book.Levels.{find_level}
use flux_trade.Book.State.{LimitOrderBook, levels_of}
use flux_trade.Book.Ops.{fill_at}
use flux_trade.Book.Front.{settled, fill_front, Unshadowed, fill_at_front, fill_order_front}
use flux_trade.Matching.Engine.{Matching, trade_with, match_orders, count_trade}
use flux_trade.Matching.TradeBuilder.{build_match}
use flux_trade.Matching.Tape.{tape_of, note_fill}

pub Unshadowed-same :
    (s : Side) (p : Price) (b b' : LimitOrderBook)
    → levels_of (opposite s) b' ≡ levels_of (opposite s) b
    → Unshadowed s p b
    → Unshadowed s p b'
Unshadowed-same buy p b b' e u = u
Unshadowed-same sell p b b' e u = ap (find_level p) e ∙ u

pub sub64_exact : (a b : ℕ) → b ≤ a → a < u64_mod → sub64 a b ≡ a - b
sub64_exact a b h k = omega arith

-- The state after one trade.
abbrev pub traded : Order → ℕ → PriceLevelNode → LiveOrder → Matching → Matching
traded order timestamp l o m =
    let q = min m.remaining_qty o.remaining_qty in
    record {
      engine = record {
        book = fill_at o q (opposite order.side) l m.engine.book;
        stats = count_trade q l.price m.engine.stats;
        trade_seq = add64 m.engine.trade_seq 1;
        exec_seq = add64 (add64 m.engine.exec_seq 1) 1;
      };
      ctx =
          build_match m.engine.trade_seq m.engine.exec_seq (add64 m.engine.exec_seq 1) order o q
            l.price (qty_sub m.remaining_qty q) (qty_sub o.remaining_qty q) timestamp m.ctx;
      remaining_qty = qty_sub m.remaining_qty q;
      trades_generated = add32 m.trades_generated 1;
    }

pub trade_with-front :
    (order : Order) (timestamp : ℕ) (l : PriceLevelNode) (ls : List PriceLevelNode) (o : LiveOrder)
    (m : Matching)
    → levels_of (opposite order.side) m.engine.book ≡ l ∷ ls
    → o.price ≡ l.price
    → Unshadowed (opposite order.side) l.price m.engine.book
    → trade_with order timestamp l.price o m ≡ some (traded order timestamp l o m)
unfolding trade_with
trade_with-front order timestamp l ls o m here priced free = rw (
    fill_order_front (opposite order.side) l ls o m.engine.book
      (min m.remaining_qty o.remaining_qty) here priced free)

pub match_orders_done :
    (order : Order) (timestamp : ℕ) (p : Price) (os : List LiveOrder) (m : Matching)
    → m.remaining_qty ≡ 0
    → match_orders order timestamp p os m ≡ some m
unfolding match_orders
match_orders_done order timestamp p [] m e = refl
match_orders_done order timestamp p (o ∷ os) m e = ground arith

-- The level once its front order is gone, and once it stays with less.
abbrev pub advanced : PriceLevelNode → LiveOrder → List LiveOrder → PriceLevelNode
advanced l o os = record l {
  orders = os;
  total_qty = qty_sub l.total_qty o.remaining_qty;
  order_count = sub32 l.order_count 1;
}

abbrev pub reduced : PriceLevelNode → LiveOrder → List LiveOrder → ℕ → PriceLevelNode
reduced l o os q = record l {
  orders = record o { remaining_qty = o.remaining_qty - q } ∷ os;
  total_qty = qty_sub l.total_qty q;
}

pub fill_front-whole :
    (l : PriceLevelNode) (o : LiveOrder) (os : List LiveOrder)
    → o.remaining_qty < u64_mod
    → fill_front o.remaining_qty o os l ≡ advanced l o os
fill_front-whole l o os h =
    let e : qty_sub o.remaining_qty o.remaining_qty ≡ 0 = omega arith in rw e refl

pub fill_front-part :
    (l : PriceLevelNode) (o : LiveOrder) (os : List LiveOrder) (q : ℕ)
    → o.remaining_qty < u64_mod
    → q < o.remaining_qty
    → fill_front q o os l ≡ reduced l o os q
fill_front-part l o os q h k =
    let e : qty_sub o.remaining_qty q ≡ o.remaining_qty - q = omega arith in
    let d : (o.remaining_qty - q == 0) ≡ false = ground arith in rw (e, d) refl

-- What one trade does when it is of the whole resting order, and when it is not.
module _ (order : Order) (timestamp : ℕ) (l : PriceLevelNode) (ls : List PriceLevelNode)
    (o : LiveOrder) (os : List LiveOrder) (m : Matching)
    (here : levels_of (opposite order.side) m.engine.book ≡ l ∷ ls) (front : l.orders ≡ o ∷ os)
    (priced : o.price ≡ l.price) (small : o.remaining_qty < u64_mod)
    (wanted : m.remaining_qty < u64_mod) where
  pub tape-traded :
      (q left : ℕ)
      → min m.remaining_qty o.remaining_qty ≡ q
      → m.remaining_qty - q ≡ left
      → tape_of (traded order timestamp l o m)
        ≡ note_fill order timestamp (record { resting = o; qty = q; left = left }) (tape_of m)
  unfolding note_fill
  tape-traded q left e k =
      let taker : qty_sub m.remaining_qty q ≡ left = omega arith in
      let maker : qty_sub o.remaining_qty q ≡ o.remaining_qty - q = omega arith in
      rw (e, taker, maker, priced) refl

  pub levels-traded :
      (q : ℕ)
      → min m.remaining_qty o.remaining_qty ≡ q
      → (levels_of (opposite order.side) (traded order timestamp l o m).engine.book
          ≡ settled (fill_front q o os l) ls)
        × (levels_of (opposite (opposite order.side)) (traded order timestamp l o m).engine.book
            ≡ levels_of (opposite (opposite order.side)) m.engine.book)
  levels-traded q e =
      rw e (fill_at_front (opposite order.side) l ls o os m.engine.book q here front)
