-- ===== src/Matching/AllLevels.antt =====
-- The outer loop of submit_order against the sweep of the whole queue of the other side.
use flux_trade.Prelude.{
  ℕ, zero, suc, ◌-◌, ◌≤◌, ◌<◌, true, false, some, List, [], ◌∷◌, ◌++◌, ◌≡◌, refl, ◌∙◌, ap, sym, inl,
  inr, arith, ltb, ltb→lt, ltb→le, Bool-cases, All, length,
}
use flux_trade.Prelude.Words.{u64_mod}
use flux_trade.Domain.{Side, opposite, Order, LiveOrder}
use flux_trade.Book.Level.{PriceLevelNode, is_empty}
use flux_trade.Book.State.{LimitOrderBook, levels_of, orders_of}
use flux_trade.Book.Front.{settled, Unshadowed}
use flux_trade.Matching.Engine.{Matching, blocked, match_orders, match_levels}
use flux_trade.Matching.Sweep.{
  Swept, stop, sweep, sweep-blocked, sweep_go, sweep-zero, sweep-append,
}
use flux_trade.Matching.Tape.{tape_of, play, play-append}
use flux_trade.Book.Valid.{IsValid}
use flux_trade.Book.Room.{Room}
use flux_trade.Matching.OneTrade.{Unshadowed-same}
use flux_trade.Matching.OneLevel.{Resting, Follows, settled_front, match_orders_lem}

-- What the loops ask of a level: it has orders, all at its price and of 64-bit quantities.
abbrev pub Ready : PriceLevelNode → Type 0
Ready l = (is_empty l.orders ≡ false) × Resting l l.orders

abbrev pub AllUnshadowed : Side → List PriceLevelNode → LimitOrderBook → Type 0
AllUnshadowed s ls b = All (λ l. Unshadowed s l.price b) ls

AllUnshadowed-same :
    (s : Side) (ls : List PriceLevelNode) (b b' : LimitOrderBook)
    → levels_of (opposite s) b' ≡ levels_of (opposite s) b
    → AllUnshadowed s ls b
    → AllUnshadowed s ls b'
AllUnshadowed-same s [] b b' e h = tt
AllUnshadowed-same s (l ∷ ls) b b' e h =
    (Unshadowed-same s l.price b b' e h.0, AllUnshadowed-same s ls b b' e h.1)

-- A run of the loops from `m` to `m'` did to the queue of the other side what the sweep says.
pub record Matched (order : Order) (timestamp : ℕ) (m m' : Matching) (sw : Swept) : Type 0 where
  pub queue : orders_of (levels_of (opposite order.side) m'.engine.book) ≡ sw.rest
  pub own_side :
      levels_of (opposite (opposite order.side)) m'.engine.book
      ≡ levels_of (opposite (opposite order.side)) m.engine.book
  pub left : m'.remaining_qty ≡ sw.left
  pub tape : tape_of m' ≡ play order timestamp sw.fills (tape_of m)
  pub valid : IsValid m.engine.book → IsValid m'.engine.book
  pub room : Room m.engine.book → Room m'.engine.book

abbrev Runs : ℕ → Order → ℕ → Matching → Swept → Type 0
Runs fuel order timestamp m sw =
    (m' : Matching) × (match_levels fuel order timestamp m ≡ some m')
    × Matched order timestamp m m' sw

-- Among orders that may trade, a sweep leaves some only when it wants no more.
sweep_exhausted :
    (order : Order) (q : ℕ) (os : List LiveOrder)
    → All (λ o. blocked order o.price ≡ false) os
    → is_empty (sweep order q os).rest ≡ false
    → (sweep order q os).left ≡ 0
sweep_exhausted order q [] go h = unfold sweep in cc
sweep_exhausted order zero (o ∷ os) go h = rw (sweep-zero order (o ∷ os)) refl
sweep_exhausted order (suc q) (o ∷ os) (g, go) h =
    ground
      (arith, sweep_go order (suc q) o os, sweep_exhausted order (suc q - o.remaining_qty) os go)

left-sweep-le : (order : Order) (q : ℕ) (os : List LiveOrder) → (sweep order q os).left ≤ q
unfolding sweep
left-sweep-le order q [] = omega arith
left-sweep-le order q (o ∷ os) = ground (arith, left-sweep-le order (q - o.remaining_qty) os)

settled_ready :
    (l : PriceLevelNode) (ls : List PriceLevelNode)
    → is_empty l.orders ≡ false
    → settled l ls ≡ l ∷ ls
settled_ready l ls e = rw e

All-go :
    (order : Order) (l : PriceLevelNode) (os : List LiveOrder)
    → Resting l os
    → blocked order l.price ≡ false
    → All (λ o. blocked order o.price ≡ false) os
All-go order l [] h e = tt
All-go order l (o ∷ os) h e = (ap (blocked order) h.0.0 ∙ e, All-go order l os h.1 e)

module _ (order : Order) (timestamp : ℕ) where
  levels_stopped :
      (fuel : ℕ) (ls : List PriceLevelNode) (m : Matching) (sw : Swept)
      → levels_of (opposite order.side) m.engine.book ≡ ls
      → match_levels fuel order timestamp m ≡ some m
      → sw ≡ stop m.remaining_qty (orders_of ls)
      → Runs fuel order timestamp m sw
  unfolding play
  levels_stopped fuel ls m sw here e stops = (
    m,
    e,
    record {
      queue = rw stops (ap orders_of here);
      own_side = refl;
      left = rw stops refl;
      tape = rw stops refl;
      valid = λ v. v;
      room = λ r. r;
    },
  )

  match_levels_done :
      (fuel : ℕ) (m : Matching)
      → 0 < fuel
      → m.remaining_qty ≡ 0
      → match_levels fuel order timestamp m ≡ some m
  unfolding match_levels
  match_levels_done zero m h e = elim h [ ]
  match_levels_done (suc fuel) m h e = ground arith

  -- A level beyond the limit ends the matching.
  match_levels-blocked :
      (fuel : ℕ) (l : PriceLevelNode) (ls : List PriceLevelNode) (m : Matching)
      → levels_of (opposite order.side) m.engine.book ≡ l ∷ ls
      → blocked order l.price ≡ true
      → match_levels (suc fuel) order timestamp m ≡ some m
  unfolding match_levels
  match_levels-blocked fuel l ls m here e = ground arith

  match_levels_step :
      (fuel : ℕ) (l : PriceLevelNode) (ls : List PriceLevelNode) (m m₁ : Matching)
      → 0 < m.remaining_qty
      → levels_of (opposite order.side) m.engine.book ≡ l ∷ ls
      → blocked order l.price ≡ false
      → match_orders order timestamp l.price l.orders m ≡ some m₁
      → match_levels (suc fuel) order timestamp m ≡ match_levels fuel order timestamp m₁
  unfolding match_levels
  match_levels_step fuel l ls m m₁ more here go runs = ground arith

  match_levels_empty :
      (fuel : ℕ) (m : Matching)
      → levels_of (opposite order.side) m.engine.book ≡ []
      → match_levels (suc fuel) order timestamp m ≡ some m
  unfolding match_levels
  match_levels_empty fuel m here = ground arith

  sweep_level_blocked :
      (q : ℕ) (l : PriceLevelNode) (ls : List PriceLevelNode) (os : List LiveOrder)
      → l.orders ≡ os
      → is_empty os ≡ false
      → Resting l os
      → blocked order l.price ≡ true
      → sweep order q (orders_of (l ∷ ls)) ≡ stop q (orders_of (l ∷ ls))
  unfolding orders_of
  sweep_level_blocked q l ls [] front h ok e = cc
  sweep_level_blocked q l ls (o ∷ os) front h ok e =
      rw front (sweep-blocked order q o (os ++ orders_of ls) (ap (blocked order) ok.0.0 ∙ e))

-- A level has been matched; what follows depends on whether it has orders left.
module _ (order : Order) (timestamp fuel : ℕ) (l l' : PriceLevelNode) (ls : List PriceLevelNode)
    (m m₁ : Matching) (more : 0 < m.remaining_qty)
    (here : levels_of (opposite order.side) m.engine.book ≡ l ∷ ls) (fueled : 0 < fuel)
    (ready : Ready l) (go : blocked order l.price ≡ false)
    (runs : match_orders order timestamp l.price l.orders m ≡ some m₁)
    (F : Follows order timestamp ls l l' m m₁ (sweep order m.remaining_qty l.orders)) where
  step : match_levels (suc fuel) order timestamp m ≡ match_levels fuel order timestamp m₁
  step = match_levels_step order timestamp fuel l ls m m₁ more here go runs

  level_gone :
      l'.orders ≡ []
      → Runs fuel order timestamp m₁ (sweep order m₁.remaining_qty (orders_of ls))
      → Runs (suc fuel) order timestamp m (sweep order m.remaining_qty (orders_of (l ∷ ls)))
  unfolding orders_of
  level_gone e (m', runs', M) =
      let none_left : (sweep order m.remaining_qty l.orders).rest ≡ [] = sym F.rest ∙ e in
      rw (sweep-append order m.remaining_qty l.orders (orders_of ls), none_left, ← F.left)
        (
          m',
          step ∙ runs',
          record {
            queue = M.queue;
            own_side = M.own_side ∙ F.others;
            left = M.left;
            valid = λ v. M.valid (F.valid v);
            room = λ r. M.room (F.room r);
            tape =
                M.tape
                ∙ ap (play order timestamp (sweep order m₁.remaining_qty (orders_of ls)).fills)
                    F.tape
                ∙ sym (
                    play-append order timestamp (sweep order m.remaining_qty l.orders).fills
                      (sweep order m₁.remaining_qty (orders_of ls)).fills (tape_of m));
          },
        )

  stopped_here : (o : LiveOrder) (os : List LiveOrder) → l'.orders ≡ o ∷ os → m₁.remaining_qty ≡ 0
  stopped_here o os e =
      F.left
      ∙ sweep_exhausted order m.remaining_qty l.orders (All-go order l l.orders ready.1 go)
          (ap is_empty (sym F.rest ∙ e))

  level_stays :
      (o : LiveOrder) (os : List LiveOrder)
      → l'.orders ≡ o ∷ os
      → Runs (suc fuel) order timestamp m (sweep order m.remaining_qty (orders_of (l ∷ ls)))
  unfolding orders_of
  level_stays o os e =
      let some_left : (sweep order m.remaining_qty l.orders).rest ≡ o ∷ os = sym F.rest ∙ e in
      let queue_now : orders_of (levels_of (opposite order.side) m₁.engine.book)
          ≡ (o ∷ os) ++ orders_of ls =
        ap orders_of (F.levels ∙ settled_front l' ls o os e) ∙ ap (λ xs. xs ++ orders_of ls) e in
      rw (sweep-append order m.remaining_qty l.orders (orders_of ls), some_left)
        (
          m₁,
          step ∙ match_levels_done order timestamp fuel m₁ fueled (stopped_here o os e),
          record {
            queue = queue_now;
            own_side = F.others;
            left = F.left;
            tape = F.tape;
            valid = F.valid;
            room = F.room;
          },
        )

  after_level :
      (os : List LiveOrder)
      → l'.orders ≡ os
      → (levels_of (opposite order.side) m₁.engine.book ≡ ls
          → Runs fuel order timestamp m₁ (sweep order m₁.remaining_qty (orders_of ls)))
      → Runs (suc fuel) order timestamp m (sweep order m.remaining_qty (orders_of (l ∷ ls)))
  after_level [] e rec = level_gone e (rec (F.levels ∙ ground arith))
  after_level (o ∷ os) e rec = level_stays o os e

module _ (order : Order) (timestamp : ℕ) where
  -- The outer loop ends, with fuel for one more round than there are levels, and does what the sweep
  -- of the queue of their orders says.
  pub match_levels_lem :
      (fuel : ℕ) (ls : List PriceLevelNode) (m : Matching)
      → length ls < fuel
      → levels_of (opposite order.side) m.engine.book ≡ ls
      → All Ready ls
      → AllUnshadowed (opposite order.side) ls m.engine.book
      → m.remaining_qty < u64_mod
      → Runs fuel order timestamp m (sweep order m.remaining_qty (orders_of ls))
  match_levels_lem zero ls m h here ready free wanted = elim h [ ]
  match_levels_lem (suc fuel) [] m h here ready free wanted =
      levels_stopped order timestamp (suc fuel) [] m _ here
        (match_levels_empty order timestamp fuel m here) (unfold orders_of sweep in refl)
  match_levels_lem (suc fuel) (l ∷ ls) m h here ready free wanted =
      elim (Bool-cases (ltb 0 m.remaining_qty)) [
        | inr done ↦
            let zero_left : m.remaining_qty ≡ 0 = omega (arith, ltb→le 0 m.remaining_qty done) in
            levels_stopped order timestamp (suc fuel) (l ∷ ls) m _ here
              (match_levels_done order timestamp (suc fuel) m (omega arith) zero_left)
              (rw zero_left (sweep-zero order (orders_of (l ∷ ls))))
        | inl more ↦ elim (Bool-cases (blocked order l.price)) [
          | inl e ↦
              levels_stopped order timestamp (suc fuel) (l ∷ ls) m _ here
                (match_levels-blocked order timestamp fuel l ls m here e)
                (sweep_level_blocked order timestamp m.remaining_qty l ls l.orders refl ready.0.0
                  ready.0.1 e)
          | inr go ↦
              let (m₁, l', runs, F) =
                match_orders_lem order timestamp ls l l.orders m
                  (here ∙ sym (settled_ready l ls ready.0.0)) refl ready.0.1 free.0 wanted go in
              after_level order timestamp fuel l l' ls m m₁ (ltb→lt _ _ more) here (omega arith)
                ready.0 go runs F l'.orders refl
                (λ here'.
                  match_levels_lem fuel ls m₁ (omega arith) here' ready.1
                    (AllUnshadowed-same (opposite order.side) ls m.engine.book m₁.engine.book
                      F.others free.1)
                    (omega (arith, F.left, left-sweep-le order m.remaining_qty l.orders)))
        ]
      ]
