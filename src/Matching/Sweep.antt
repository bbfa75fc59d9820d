-- ===== src/Matching/Sweep.antt =====
-- What the matching of an order should do, with no levels, pointers or pools: the resting orders of
-- the other side are one queue in price-time order, and the order takes from its front.
use flux_trade.Prelude.{
  ℕ, suc, ◌-◌, true, false, not, ◌&&◌, List, [], ◌∷◌, ◌++◌, ◌≡◌, refl, arith, ltb, leb,
  if◌then◌else◌, lt→ltb, Bool-cases, inl, inr, zero, ◌<◌, sym,
}
use flux_trade.Domain.{Order, LiveOrder}
use flux_trade.Matching.Engine.{blocked}

-- `left` is what the order still wants after the fill.
pub record Fill : Type 0 where
  pub resting : LiveOrder
  pub qty : ℕ
  pub left : ℕ

pub record Swept : Type 0 where
  pub left : ℕ
  pub fills : List Fill
  pub rest : List LiveOrder

abbrev pub stop : ℕ → List LiveOrder → Swept
stop q os = record { left = q; fills = []; rest = os }

abbrev pub with_fill : Fill → Swept → Swept
with_fill f s = record s { fills = f ∷ s.fills }

-- The front order against the `q` units that are wanted, where the rest would be swept to `next`.
abbrev pub take_front : ℕ → LiveOrder → List LiveOrder → Swept → Swept
take_front q o os next =
    if leb o.remaining_qty q
    then with_fill (record { resting = o; qty = o.remaining_qty; left = q - o.remaining_qty }) next
    else with_fill (record { resting = o; qty = q; left = 0 })
        (stop 0 (record o { remaining_qty = o.remaining_qty - q } ∷ os))

unfoldable pub sweep : Order → ℕ → List LiveOrder → Swept
sweep order q [] = stop q []
sweep order q (o ∷ os) =
    let next = sweep order (q - o.remaining_qty) os in
    if ltb 0 q && not (blocked order o.price) then take_front q o os next else stop q (o ∷ os)

-- The sweep of a longer queue goes on where that of its front part stops for want of orders.
abbrev pub resume : Order → List LiveOrder → Swept → List LiveOrder → Swept
resume order os s [] =
    let next = sweep order s.left os in record next { fills = s.fills ++ next.fills }
resume order os s (x ∷ xs) = record s { rest = (x ∷ xs) ++ os }

resume-with_fill :
    (order : Order) (os : List LiveOrder) (f : Fill) (s : Swept) (r : List LiveOrder)
    → resume order os (with_fill f s) r ≡ with_fill f (resume order os s r)
resume-with_fill order os f s [] = refl
resume-with_fill order os f s (x ∷ xs) = refl

-- One step of the sweep, by its two tests.
pub sweep_go :
    (order : Order) (q : ℕ) (o : LiveOrder) (os : List LiveOrder)
    → 0 < q
    → blocked order o.price ≡ false
    → sweep order q (o ∷ os) ≡ take_front q o os (sweep order (q - o.remaining_qty) os)
unfolding sweep
sweep_go order q o os h e = rw (e, lt→ltb 0 q h)

pub sweep-blocked :
    (order : Order) (q : ℕ) (o : LiveOrder) (os : List LiveOrder)
    → blocked order o.price ≡ true
    → sweep order q (o ∷ os) ≡ stop q (o ∷ os)
unfolding sweep
sweep-blocked order q o os e = ground arith

pub sweep-zero : (order : Order) (os : List LiveOrder) → sweep order 0 os ≡ stop 0 os
unfolding sweep
sweep-zero order [] = refl
sweep-zero order (o ∷ os) = refl

take_front-resume :
    (order : Order) (q : ℕ) (o : LiveOrder) (os more : List LiveOrder) (s : Swept)
    → let t = take_front q o os s in
      take_front q o (os ++ more) (resume order more s s.rest) ≡ resume order more t t.rest
take_front-resume order q o os more s = elim (Bool-cases (leb o.remaining_qty q)) [
  | inl e ↦ rw e (sym (resume-with_fill order more _ s s.rest))
  | inr e ↦ rw e refl
]

pub sweep-append :
    (order : Order) (q : ℕ) (os more : List LiveOrder)
    → sweep order q (os ++ more) ≡ resume order more (sweep order q os) (sweep order q os).rest
sweep-append order q [] more = unfold sweep in refl
sweep-append order zero (o ∷ os) more =
    rw (sweep-zero order (o ∷ os ++ more), sweep-zero order (o ∷ os)) refl
sweep-append order (suc q) (o ∷ os) more = elim (Bool-cases (blocked order o.price)) [
  | inl e ↦
      rw (sweep-blocked order (suc q) o (os ++ more) e, sweep-blocked order (suc q) o os e) refl
  | inr e ↦
      rw
        (
          sweep_go order (suc q) o (os ++ more) (omega arith) e,
          sweep_go order (suc q) o os (omega arith) e,
          sweep-append order (suc q - o.remaining_qty) os more,
        )
        (take_front-resume order (suc q) o os more (sweep order (suc q - o.remaining_qty) os))
]
