-- ===== src/Matching/OneLevel.antt =====
-- The inner loop of submit_order against the sweep of one level's queue.
use flux_trade.Prelude.{
  ℕ, ◌-◌, ◌≤◌, ◌<◌, min, true, false, some, List, [], ◌∷◌, ◌≡◌, refl, ◌∙◌, ap, inl, inr, arith, leb,
  ltb, ltb→lt, ltb→le, leb→le, Bool-cases, All, ==_refl, subst,
}
use flux_trade.Prelude.Words.{u64_mod}
use flux_trade.Domain.{opposite, Price, Order, LiveOrder}
use flux_trade.Book.Level.{PriceLevelNode, find_slot}
use flux_trade.Book.Valid.{SideOk, IsValid, side-ok, Narrows-IsValid}
use flux_trade.Book.Fill.{Narrows-fill_at}
use flux_trade.Book.Room.{Room, Room-fill_at}
use flux_trade.Book.State.{levels_of}
use flux_trade.Book.Front.{settled, fill_front, Unshadowed}
use flux_trade.Matching.Engine.{Matching, blocked, can_self_trade, trade_with, match_orders}
use flux_trade.Matching.Sweep.{
  Fill, Swept, stop, with_fill, sweep, sweep_go, sweep-zero, take_front,
}
use flux_trade.Matching.OneTrade.{
  Unshadowed-same, traded, trade_with-front, match_orders_done, advanced, reduced, fill_front-whole,
  fill_front-part, tape-traded, levels-traded,
}
use flux_trade.Matching.Tape.{tape_of, note_fill, play}

-- A run of the loops took the front level `l` to `l'`, as the sweep `sw` says.
pub record Follows (order : Order) (timestamp : ℕ) (ls : List PriceLevelNode)
    (l l' : PriceLevelNode) (m m' : Matching) (sw : Swept) : Type 0 where
  pub levels : levels_of (opposite order.side) m'.engine.book ≡ settled l' ls
  pub others :
      levels_of (opposite (opposite order.side)) m'.engine.book
      ≡ levels_of (opposite (opposite order.side)) m.engine.book
  pub same_price : l'.price ≡ l.price
  pub left : m'.remaining_qty ≡ sw.left
  pub rest : l'.orders ≡ sw.rest
  pub tape : tape_of m' ≡ play order timestamp sw.fills (tape_of m)
  pub valid : IsValid m.engine.book → IsValid m'.engine.book
  pub room : Room m.engine.book → Room m'.engine.book

-- What the loop asks of the resting orders of a level.
abbrev pub Resting : PriceLevelNode → List LiveOrder → Type 0
Resting l os = All (λ o. (o.price ≡ l.price) × (o.remaining_qty < u64_mod)) os

abbrev Runs :
    Order → ℕ → List PriceLevelNode → PriceLevelNode → List LiveOrder → Matching → Swept → Type 0
Runs order timestamp ls l os m sw =
    (m' : Matching) × (l' : PriceLevelNode) × (match_orders order timestamp l.price os m ≡ some m')
    × Follows order timestamp ls l l' m m' sw

run_stopped :
    (order : Order) (timestamp : ℕ) (ls : List PriceLevelNode) (l : PriceLevelNode)
    (os : List LiveOrder) (m : Matching) (sw : Swept)
    → levels_of (opposite order.side) m.engine.book ≡ settled l ls
    → match_orders order timestamp l.price os m ≡ some m
    → sw ≡ stop m.remaining_qty l.orders
    → Runs order timestamp ls l os m sw
unfolding play
run_stopped order timestamp ls l os m sw here e stops = (
  m,
  l,
  e,
  record {
    levels = here;
    others = refl;
    same_price = refl;
    left = rw stops refl;
    rest = rw stops refl;
    tape = rw stops refl;
    valid = λ v. v;
    room = λ r. r;
  },
)

match_orders_step :
    (order : Order) (timestamp : ℕ) (p : Price) (o : LiveOrder) (os : List LiveOrder)
    (m m₁ : Matching)
    → 0 < m.remaining_qty
    → trade_with order timestamp p o m ≡ some m₁
    → match_orders order timestamp p (o ∷ os) m ≡ match_orders order timestamp p os m₁
unfolding match_orders can_self_trade
match_orders_step order timestamp p o os m m₁ more trades = ground arith

-- One trade in front of a run.
run_after :
    (order : Order) (timestamp : ℕ) (ls : List PriceLevelNode) (l l₁ : PriceLevelNode)
    (o : LiveOrder) (os : List LiveOrder) (m m₁ : Matching) (f : Fill) (sw : Swept)
    → 0 < m.remaining_qty
    → trade_with order timestamp l.price o m ≡ some m₁
    → l₁.price ≡ l.price
    → levels_of (opposite (opposite order.side)) m₁.engine.book
      ≡ levels_of (opposite (opposite order.side)) m.engine.book
    → tape_of m₁ ≡ note_fill order timestamp f (tape_of m)
    → (IsValid m.engine.book → IsValid m₁.engine.book)
    → (Room m.engine.book → Room m₁.engine.book)
    → Runs order timestamp ls l₁ os m₁ sw
    → Runs order timestamp ls l (o ∷ os) m (with_fill f sw)
unfolding play
run_after order timestamp ls l l₁ o os m m₁ f sw more trades same others tape valid room
      (m', l', runs, F) =
    (
      m',
      l',
      match_orders_step order timestamp l.price o os m m₁ more trades
          ∙ subst (λ p. match_orders order timestamp p os m₁ ≡ some m') same runs,
      record {
        levels = F.levels;
        others = F.others ∙ others;
        same_price = F.same_price ∙ same;
        left = F.left;
        rest = F.rest;
        tape = F.tape ∙ ap (play order timestamp sw.fills) tape;
        valid = λ v. F.valid (valid v);
        room = λ r. F.room (room r);
      },
    )

pub settled_front :
    (l : PriceLevelNode) (ls : List PriceLevelNode) (o : LiveOrder) (os : List LiveOrder)
    → l.orders ≡ o ∷ os
    → settled l ls ≡ l ∷ ls
settled_front l ls o os e = ground arith

find_slot_front : (o : LiveOrder) (os : List LiveOrder) → find_slot o.slot (o ∷ os) ≡ some o
unfolding find_slot
find_slot_front o os = rw (==_refl o.slot)

-- What the two kinds of trade make of a state, as a step towards the sweep.
module _ (order : Order) (timestamp : ℕ) (ls : List PriceLevelNode) (l : PriceLevelNode)
    (o : LiveOrder) (os : List LiveOrder) (m : Matching)
    (here : levels_of (opposite order.side) m.engine.book ≡ settled l ls)
    (front : l.orders ≡ o ∷ os) (ok : Resting l (o ∷ os))
    (free : Unshadowed (opposite order.side) l.price m.engine.book)
    (wanted : m.remaining_qty < u64_mod) (go : blocked order l.price ≡ false)
    (more : 0 < m.remaining_qty) where
  here' : levels_of (opposite order.side) m.engine.book ≡ l ∷ ls
  here' = here ∙ settled_front l ls o os front

  trades : trade_with order timestamp l.price o m ≡ some (traded order timestamp l o m)
  trades = trade_with-front order timestamp l ls o m here' ok.0.0 free

  levels_next :
      (q : ℕ)
      → min m.remaining_qty o.remaining_qty ≡ q
      → (levels_of (opposite order.side) (traded order timestamp l o m).engine.book
          ≡ settled (fill_front q o os l) ls)
        × (levels_of (opposite (opposite order.side)) (traded order timestamp l o m).engine.book
            ≡ levels_of (opposite (opposite order.side)) m.engine.book)
  levels_next = levels-traded order timestamp l ls o os m here' front ok.0.0 ok.0.1 wanted

  still_free : Unshadowed (opposite order.side) l.price (traded order timestamp l o m).engine.book
  still_free =
      Unshadowed-same (opposite order.side) l.price m.engine.book
        (traded order timestamp l o m).engine.book (levels_next _ refl).1 free

  IsValid-next : IsValid m.engine.book → IsValid (traded order timestamp l o m).engine.book
  IsValid-next v =
      let side : SideOk (opposite order.side) (l ∷ ls) =
        subst (SideOk (opposite order.side)) here'
          (side-ok (opposite order.side) m.engine.book v) in
      Narrows-IsValid (opposite order.side) m.engine.book _
        (Narrows-fill_at (opposite order.side) l o (min m.remaining_qty o.remaining_qty)
          m.engine.book side.levels.0 (ap (find_slot o.slot) front ∙ find_slot_front o os)
          (omega arith))
        v

  Room-next : Room m.engine.book → Room (traded order timestamp l o m).engine.book
  Room-next = Room-fill_at o _ (opposite order.side) l m.engine.book

  levels_whole :
      o.remaining_qty ≤ m.remaining_qty
      → levels_of (opposite order.side) (traded order timestamp l o m).engine.book
        ≡ settled (advanced l o os) ls
  levels_whole h =
      (levels_next o.remaining_qty (omega arith)).0
      ∙ ap (λ k. settled k ls) (fill_front-whole l o os ok.0.1)

  swept :
      sweep order m.remaining_qty (o ∷ os)
      ≡ take_front m.remaining_qty o os (sweep order (m.remaining_qty - o.remaining_qty) os)
  swept = sweep_go order m.remaining_qty o os more (ap (blocked order) ok.0.0 ∙ go)

  run_whole :
      o.remaining_qty ≤ m.remaining_qty
      → Runs order timestamp ls
          (advanced l o os)
          os
          (traded order timestamp l o m)
          (sweep order (traded order timestamp l o m).remaining_qty os)
      → Runs order timestamp ls l (o ∷ os) m (sweep order m.remaining_qty (o ∷ os))
  run_whole h run =
      let whole : leb o.remaining_qty m.remaining_qty ≡ true = ground arith in
      let q : min m.remaining_qty o.remaining_qty ≡ o.remaining_qty = omega arith in
      let left : (traded order timestamp l o m).remaining_qty ≡ m.remaining_qty - o.remaining_qty =
        omega arith in
      rw (swept, whole)
        (run_after order timestamp ls l (advanced l o os) o os m (traded order timestamp l o m) _ _
          more trades refl (levels_next _ q).1
          (tape-traded order timestamp l ls o os m here' front ok.0.0 ok.0.1 wanted o.remaining_qty
            _ q refl)
          IsValid-next Room-next
          (subst
            (λ r.
              Runs order timestamp ls (advanced l o os) os (traded order timestamp l o m)
                (sweep order r os))
            left run))

  run_part :
      m.remaining_qty < o.remaining_qty
      → Runs order timestamp ls l (o ∷ os) m (sweep order m.remaining_qty (o ∷ os))
  run_part h =
      let part : leb o.remaining_qty m.remaining_qty ≡ false = ground arith in
      let q : min m.remaining_qty o.remaining_qty ≡ m.remaining_qty = omega arith in
      let left : (traded order timestamp l o m).remaining_qty ≡ 0 = omega arith in
      rw (swept, part)
        (run_after order timestamp ls l (reduced l o os m.remaining_qty) o os m
          (traded order timestamp l o m) _ _ more trades refl (levels_next _ q).1
          (tape-traded order timestamp l ls o os m here' front ok.0.0 ok.0.1 wanted m.remaining_qty
            0 q (omega arith))
          IsValid-next Room-next
          (run_stopped order timestamp ls (reduced l o os m.remaining_qty) os
            (traded order timestamp l o m) _
            ((levels_next _ q).0
              ∙ ap (λ k. settled k ls) (fill_front-part l o os m.remaining_qty ok.0.1 h))
            (match_orders_done order timestamp l.price os (traded order timestamp l o m) left)
            (rw left refl)))

module _ (order : Order) (timestamp : ℕ) (ls : List PriceLevelNode) where
  pub match_orders_lem :
      (l : PriceLevelNode) (os : List LiveOrder) (m : Matching)
      → levels_of (opposite order.side) m.engine.book ≡ settled l ls
      → l.orders ≡ os
      → Resting l os
      → Unshadowed (opposite order.side) l.price m.engine.book
      → m.remaining_qty < u64_mod
      → blocked order l.price ≡ false
      → Runs order timestamp ls l os m (sweep order m.remaining_qty os)
  match_orders_lem l [] m here front ok free wanted go =
      run_stopped order timestamp ls l [] m _ here (unfold match_orders in refl)
        (rw front (unfold sweep in refl))
  match_orders_lem l (o ∷ os) m here front ok free wanted go =
      elim (Bool-cases (ltb 0 m.remaining_qty)) [
        | inl more ↦ elim (Bool-cases (leb o.remaining_qty m.remaining_qty)) [
          | inl whole ↦
              run_whole order timestamp ls l o os m here front ok free wanted go (ltb→lt _ _ more)
                (leb→le _ _ whole)
                (match_orders_lem (advanced l o os) os (traded order timestamp l o m)
                  (levels_whole order timestamp ls l o os m here front ok free wanted go
                    (ltb→lt _ _ more) (leb→le _ _ whole))
                  refl ok.1
                  (still_free order timestamp ls l o os m here front ok free wanted go
                    (ltb→lt _ _ more))
                  (omega arith) go)
          | inr part ↦
              run_part order timestamp ls l o os m here front ok free wanted go (ltb→lt _ _ more)
                (ground arith)
        ]
        | inr done ↦
            let zero_left : m.remaining_qty ≡ 0 = omega (arith, ltb→le 0 m.remaining_qty done) in
            run_stopped order timestamp ls l (o ∷ os) m _ here
              (match_orders_done order timestamp l.price (o ∷ os) m zero_left)
              (rw (zero_left, front) (sweep-zero order (o ∷ os)))
      ]
