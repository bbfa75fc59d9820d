-- ===== src/Matching/SweepLaws.antt =====
-- What the sweep guarantees: quantities balance, prices respect the limit, the queue is served in
-- order, and it stops for a reason.
use flux_trade.Prelude.{
  ℕ, ◌-◌, ◌+◌, ◌≤◌, ◌<◌, true, false, not, ◌&&◌, List, [], ◌∷◌, ◌++◌, ◌≡◌, refl, ap, arith, ltb,
  leb, if◌then◌else◌, Bool-cases, inl, inr, All, map, sym, ◌∙◌, ◌==◌, ==_iff,
}
use flux_trade.Domain.{Side, buy, sell, Price, OrderType, Order, LiveOrder}
use flux_trade.Prelude.Int.{ltb_ℤ}
use flux_trade.Book.Sums.{total}
use flux_trade.Matching.Engine.{blocked, beyond, is_limit}
use flux_trade.Matching.Sweep.{Fill, Swept, stop, with_fill, sweep}

abbrev pub shares : List Fill → ℕ
shares [] = 0
shares (f ∷ fs) = f.qty + shares fs

-- What the order gets and what it is left wanting are what it asked for, and the queue loses what the
-- order gets.
pub sweep_conserves :
    (order : Order) (q : ℕ) (os : List LiveOrder)
    → let s = sweep order q os in
      (s.left + shares s.fills ≡ q) × (total s.rest + shares s.fills ≡ total os)
unfolding sweep
sweep_conserves order q [] = omega arith
sweep_conserves order q (o ∷ os) = ground (arith, sweep_conserves order (q - o.remaining_qty) os)

-- No fill is at a price beyond the order's limit, and none exceeds what the resting order has.
pub sweep_within_limit :
    (order : Order) (q : ℕ) (os : List LiveOrder)
    → All
        (λ f. (blocked order f.resting.price ≡ false) × (f.qty ≤ f.resting.remaining_qty))
        (sweep order q os).fills
unfolding sweep
sweep_within_limit order q [] = tt
sweep_within_limit order q (o ∷ os) =
    let rest = sweep_within_limit order (q - o.remaining_qty) os in
    elim (Bool-cases (ltb 0 q && not (blocked order o.price))) [
      | inl go ↦
          let unblocked : blocked order o.price ≡ false = ground arith in
          elim (Bool-cases (leb o.remaining_qty q)) [
            | inl whole ↦ rw (go, whole) ((unblocked, omega arith), rest)
            | inr part ↦
                let fits : q ≤ o.remaining_qty = ground arith in
                rw (go, part) ((unblocked, fits), tt)
          ]
      | inr e ↦ rw e tt
    ]

-- Whether an order takes a price, said without the engine's test.
abbrev pub Within : OrderType → Side → Price → Price → Type 0
Within OrderType.limit buy limit p = ltb_ℤ limit p ≡ false
Within OrderType.limit sell limit p = ltb_ℤ p limit ≡ false
Within OrderType.market side limit p = Unit {0}
Within OrderType.stop side limit p = Unit {0}

abbrev pub Acceptable : Order → Price → Type 0
Acceptable order p = Within order.type order.side order.price p

Within-of_test :
    (t : OrderType) (s : Side) (limit p : Price)
    → (is_limit t && beyond s limit p) ≡ false
    → Within t s limit p
Within-of_test OrderType.limit buy limit p h = h
Within-of_test OrderType.limit sell limit p h = h
Within-of_test OrderType.market s limit p h = tt
Within-of_test OrderType.stop s limit p h = tt

All-Acceptable :
    (order : Order) (fs : List Fill)
    → All (λ f. (blocked order f.resting.price ≡ false) × (f.qty ≤ f.resting.remaining_qty)) fs
    → All (λ f. Acceptable order f.resting.price × (f.qty ≤ f.resting.remaining_qty)) fs
unfolding blocked
All-Acceptable order [] h = tt
All-Acceptable order (f ∷ fs) h = (
  (Within-of_test order.type order.side order.price f.resting.price h.0.0, h.0.1),
  All-Acceptable order fs h.1,
)

pub sweep-Acceptable :
    (order : Order) (q : ℕ) (os : List LiveOrder)
    → All
        (λ f. Acceptable order f.resting.price × (f.qty ≤ f.resting.remaining_qty))
        (sweep order q os).fills
sweep-Acceptable order q os =
    All-Acceptable order (sweep order q os).fills (sweep_within_limit order q os)

-- Each fill but the last takes all that its resting order has.
abbrev pub WholeButLast : List Fill → Type 0
WholeButLast [] = Unit {0}
WholeButLast (f ∷ []) = Unit {0}
WholeButLast (f ∷ g ∷ fs) = (f.qty ≡ f.resting.remaining_qty) × WholeButLast (g ∷ fs)

-- What is left of the queue: the orders that no fill touched, behind the last fill's order if that
-- is not used up.
abbrev pub leftover : List Fill → List LiveOrder → List LiveOrder
leftover [] os = os
leftover (f ∷ []) os =
    if f.qty == f.resting.remaining_qty
    then os
    else record f.resting { remaining_qty = f.resting.remaining_qty - f.qty } ∷ os
leftover (f ∷ g ∷ fs) os = leftover (g ∷ fs) os

WholeButLast-cons :
    (f : Fill) (fs : List Fill)
    → f.qty ≡ f.resting.remaining_qty
    → WholeButLast fs
    → WholeButLast (f ∷ fs)
WholeButLast-cons f [] e h = tt
WholeButLast-cons f (g ∷ fs) e h = (e, h)

leftover-cons :
    (f : Fill) (fs : List Fill) (os : List LiveOrder)
    → f.qty ≡ f.resting.remaining_qty
    → leftover (f ∷ fs) os ≡ leftover fs os
leftover-cons f [] os e = rw ((==_iff f.qty f.resting.remaining_qty).1 e)
leftover-cons f (g ∷ fs) os e = refl

abbrev pub Served : Swept → List LiveOrder → Type 0
Served s os =
    (untouched : List LiveOrder) × (os ≡ map (λ f. f.resting) s.fills ++ untouched)
    × WholeButLast s.fills
    × (s.rest ≡ leftover s.fills untouched)

Served-whole :
    (o : LiveOrder) (os : List LiveOrder) (left : ℕ) (s : Swept)
    → Served s os
    → Served (with_fill (record { resting = o; qty = o.remaining_qty; left = left }) s) (o ∷ os)
Served-whole o os left s (untouched, e, whole, rest) =
    let f : Fill = record { resting = o; qty = o.remaining_qty; left = left } in
    (
      untouched,
      ap (λ xs. o ∷ xs) e,
      WholeButLast-cons f s.fills refl whole,
      rest ∙ sym (leftover-cons f s.fills untouched refl),
    )

Served-part :
    (o : LiveOrder) (os : List LiveOrder) (q : ℕ)
    → q < o.remaining_qty
    → Served
        (with_fill
          (record { resting = o; qty = q; left = 0 })
          (stop 0 (record o { remaining_qty = o.remaining_qty - q } ∷ os)))
        (o ∷ os)
Served-part o os q h =
    let e : (q == o.remaining_qty) ≡ false = ground arith in (os, refl, tt, rw e refl)

-- The queue is served from its front: the resting orders of the fills are its first ones, in order;
-- each is used up before the next is touched; the rest of the queue stays as it was.
pub sweep_serves_in_order :
    (order : Order) (q : ℕ) (os : List LiveOrder) → Served (sweep order q os) os
unfolding sweep
sweep_serves_in_order order q [] = ([], refl, tt, refl)
sweep_serves_in_order order q (o ∷ os) =
    let rest = sweep_serves_in_order order (q - o.remaining_qty) os in
    elim (Bool-cases (ltb 0 q && not (blocked order o.price))) [
      | inl go ↦ elim (Bool-cases (leb o.remaining_qty q)) [
        | inl whole ↦
            rw (go, whole)
              (Served-whole o os (q - o.remaining_qty) (sweep order (q - o.remaining_qty) os) rest)
        | inr part ↦ rw (go, part) (Served-part o os q (ground arith))
      ]
      | inr e ↦ rw e (o ∷ os, refl, tt, refl)
    ]

-- An order that is left wanting has met the end of the queue or a price beyond its limit.
abbrev pub FrontBlocked : Order → List LiveOrder → Type 0
FrontBlocked order [] = Unit {0}
FrontBlocked order (o ∷ os) = blocked order o.price ≡ true

pub sweep_stops :
    (order : Order) (q : ℕ) (os : List LiveOrder)
    → 0 < (sweep order q os).left
    → FrontBlocked order (sweep order q os).rest
unfolding sweep
sweep_stops order q [] h = tt
sweep_stops order q (o ∷ os) h = ground (arith, sweep_stops order (q - o.remaining_qty) os)
