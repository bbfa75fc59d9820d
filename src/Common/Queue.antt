-- ===== src/Common/Queue.antt =====
-- A ring buffer against the bounded queue that it stands for.
use Prim.Native.Nat.{◌∣◌}
use native.Mathlib.Nat.{mod-mod_of_dvd}
use flux_trade.Prelude.{
  ℕ, suc, ◌+◌, ◌%◌, ◌<◌, ◌≤◌, Bool, true, false, Option, none, some, List, [], ◌∷◌, ◌++◌, ◌≡◌, refl,
  ap, ap₂, subst, sym, ◌∙◌, arith, length, leb, ◌==◌, if◌then◌else◌, Bool-cases, inl, inr,
}
use flux_trade.Prelude.Words.{u64_mod, add64, sub64}
use flux_trade.Common.Table.{put, put_same}
use flux_trade.Common.Ring.{Ring, slot_of, push, pop}
use flux_trade.Common.Window.{window, window-length, window_congr, window_snoc, window-put}

-- Both indexes are words, no more is held than fits, and the capacity divides 2 ^ 64.
pub record IsRing {ℓ} {A : Type ℓ} (r : Ring A) : Type ℓ where
  pub divides : r.capacity ∣ u64_mod
  pub some_room : 0 < r.capacity
  pub below_mod : r.capacity < u64_mod
  pub write_word : r.write_idx < u64_mod
  pub read_word : r.read_idx < u64_mod
  pub fits : sub64 r.write_idx r.read_idx ≤ r.capacity

module _ {ℓ} {A : Type ℓ} where
  abbrev pub held : Ring A → ℕ
  held r = sub64 r.write_idx r.read_idx

  -- What the ring holds, oldest first.
  abbrev pub contents : Ring A → List A
  contents r = window r.capacity r.buffer (held r) r.read_idx

  abbrev pub bounded_push : ℕ → A → List A → Bool × List A
  bounded_push capacity a q = if leb capacity (length q) then (false, q) else (true, q ++ a ∷ [])

  -- The slot that a push writes, counted from the read index.
  pub write_slot :
      (r : Ring A) → IsRing r → r.write_idx % r.capacity ≡ (r.read_idx + held r) % r.capacity
  write_slot r v =
      let back : (r.read_idx + held r) % u64_mod ≡ r.write_idx =
        omega (arith, v.write_word, v.read_word) in
      ap (λ k. k % r.capacity) (sym back)
      ∙ mod-mod_of_dvd r.capacity (r.read_idx + held r) v.divides

  abbrev pushed : A → Ring A → Ring A
  pushed a r = record r {
    buffer = put (slot_of r.write_idx r) a r.buffer;
    write_idx = add64 r.write_idx 1;
  }

  pub published-IsRing :
      (r : Ring A)
      → IsRing r
      → held r < r.capacity
      → IsRing (record r { write_idx = add64 r.write_idx 1 })
  published-IsRing r v h = record {
    divides = v.divides;
    some_room = v.some_room;
    below_mod = v.below_mod;
    write_word = omega arith;
    read_word = v.read_word;
    fits = omega (arith, v.write_word, v.read_word, v.below_mod, h);
  }

  pushed-IsRing : (a : A) (r : Ring A) → IsRing r → held r < r.capacity → IsRing (pushed a r)
  pushed-IsRing a r v h = record {
    divides = v.divides;
    some_room = v.some_room;
    below_mod = v.below_mod;
    write_word = omega arith;
    read_word = v.read_word;
    fits = omega (arith, v.write_word, v.read_word, v.below_mod, h);
  }

  contents-pushed :
      (a : A) (r : Ring A)
      → IsRing r
      → held r < r.capacity
      → contents (pushed a r) ≡ contents r ++ a ∷ []
  contents-pushed a r v h =
      let c = r.capacity in
      let n = held r in
      let slot = (r.read_idx + n) % c in
      let grown : sub64 (add64 r.write_idx 1) r.read_idx ≡ suc n =
        omega (arith, v.write_word, v.read_word, v.below_mod, h) in
      ap₂ (λ (b : ℕ → A) k. window c b k r.read_idx) (ap (λ k. put k a r.buffer) (write_slot r v))
        grown
      ∙ window_snoc c (put slot a r.buffer) n r.read_idx
      ∙ ap₂ (λ xs x. xs ++ x ∷ []) (window-put c r.buffer a n n r.read_idx (omega arith) h)
          (put_same slot a r.buffer)

  pub popped-contents :
      (r : Ring A)
      → IsRing r
      → 0 < held r
      → contents r
        ≡ r.buffer (slot_of r.read_idx r) ∷ contents (record r { read_idx = add64 r.read_idx 1 })
  popped-contents r v h =
      let c = r.capacity in
      let next = add64 r.read_idx 1 in
      let fewer : held r ≡ suc (sub64 r.write_idx next) =
        omega (arith, v.write_word, v.read_word, h) in
      ap (λ n. window c r.buffer n r.read_idx) fewer
      ∙ ap (λ xs. r.buffer (r.read_idx % c) ∷ xs)
          (window_congr c r.buffer (sub64 r.write_idx next) (r.read_idx + 1) next
            (sym (mod-mod_of_dvd c (r.read_idx + 1) v.divides)))

  pub popped-IsRing :
      (r : Ring A) → IsRing r → 0 < held r → IsRing (record r { read_idx = add64 r.read_idx 1 })
  popped-IsRing r v h = record {
    divides = v.divides;
    some_room = v.some_room;
    below_mod = v.below_mod;
    write_word = v.write_word;
    read_word = omega arith;
    fits = omega (arith, v.write_word, v.read_word, v.fits, h);
  }

  pub length-contents : (r : Ring A) → length (contents r) ≡ held r
  length-contents r = window-length r.capacity r.buffer (held r) r.read_idx

  -- A push does to the contents what it does to a bounded queue: it is refused where the queue is full,
  -- and else the value joins the end.
  pub push-refines :
      (a : A) (r : Ring A)
      → IsRing r
      → IsRing (push a r).1
        × ((push a r).0 ≡ (bounded_push r.capacity a (contents r)).0)
        × (contents (push a r).1 ≡ (bounded_push r.capacity a (contents r)).1)
  unfolding push
  push-refines a r v = elim (Bool-cases (leb r.capacity (held r))) [
    | inl full ↦ rw (length-contents r, full) (v, refl, refl)
    | inr room ↦
        let less : held r < r.capacity = ground arith in
        rw (length-contents r, room) (pushed-IsRing a r v less, refl, contents-pushed a r v less)
  ]

  abbrev pub bounded_pop : List A → Option (A × List A)
  bounded_pop [] = none
  bounded_pop (a ∷ q) = some (a, q)

  abbrev pub seen : Option (A × Ring A) → Option (A × List A)
  seen none = none
  seen (some (a, r)) = some (a, contents r)

  abbrev pub StillRing : Option (A × Ring A) → Type ℓ
  StillRing none = Unit
  StillRing (some (a, r)) = IsRing r

  -- And so does a pop: it is refused where the queue is empty, and else takes the oldest value.
  pub pop-refines :
      (r : Ring A) → IsRing r → StillRing (pop r) × (seen (pop r) ≡ bounded_pop (contents r))
  unfolding pop
  pop-refines r v = elim (Bool-cases (r.read_idx == r.write_idx)) [
    | inl none_left ↦
        let nothing : held r ≡ 0 = ground (arith, v.write_word) in
        rw (none_left, nothing) (tt, refl)
    | inr some_left ↦
        let something : 0 < held r = ground (arith, v.write_word, v.read_word) in
        rw (some_left, popped-contents r v something) (popped-IsRing r v something, refl)
  ]

-- Pushes and pops in any order, with what each returns.
pub data QueueOp {ℓ} (A : Type ℓ) : Type ℓ where
  put_in : A → QueueOp A
  take_out : QueueOp A

pub data Reply {ℓ} (A : Type ℓ) : Type ℓ where
  accepted : Bool → Reply A
  taken : Option A → Reply A

module _ {ℓ} {A : Type ℓ} where
  abbrev after_pop {κ} : {Q : Type κ} → Q → Option (A × Q) → Option A × Q
  after_pop q none = (none, q)
  after_pop q (some (a, q')) = (some a, q')

  abbrev pub run_ring : List (QueueOp A) → Ring A → List (Reply A)
  run_ring [] r = []
  run_ring (put_in a ∷ ops) r = accepted (push a r).0 ∷ run_ring ops (push a r).1
  run_ring (take_out ∷ ops) r = let (got, r') = after_pop r (pop r) in taken got ∷ run_ring ops r'

  abbrev pub run_queue : ℕ → List (QueueOp A) → List A → List (Reply A)
  run_queue capacity [] q = []
  run_queue capacity (put_in a ∷ ops) q =
      accepted (bounded_push capacity a q).0 ∷ run_queue capacity ops (bounded_push capacity a q).1
  run_queue capacity (take_out ∷ ops) q =
      let (got, q') = after_pop q (bounded_pop q) in taken got ∷ run_queue capacity ops q'

  pub capacity-push : (a : A) (r : Ring A) → (push a r).1.capacity ≡ r.capacity
  unfolding push
  capacity-push a r = ground arith

  capacity-pop : (r : Ring A) → (after_pop r (pop r)).1.capacity ≡ r.capacity
  unfolding pop
  capacity-pop r = ground arith

  after_pop-seen :
      (r : Ring A) (p : Option (A × Ring A))
      → StillRing p
      → IsRing r
      → IsRing (after_pop r p).1
        × ((after_pop r p).0 ≡ (after_pop (contents r) (seen p)).0)
        × (contents (after_pop r p).1 ≡ (after_pop (contents r) (seen p)).1)
  after_pop-seen r none s v = (v, refl, refl)
  after_pop-seen r (some (a, r')) s v = (s, refl, refl)

  after_pop-refines :
      (r : Ring A)
      → IsRing r
      → let (got, r') = after_pop r (pop r) in
        let (first, q') = after_pop (contents r) (bounded_pop (contents r)) in
        IsRing r' × (got ≡ first) × (contents r' ≡ q')
  after_pop-refines r v =
      let (still, same) = pop-refines r v in
      let (v', got, left) = after_pop-seen r (pop r) still v in
      (
        v',
        got ∙ ap (λ p. (after_pop (contents r) p).0) same,
        left ∙ ap (λ p. (after_pop (contents r) p).1) same,
      )

  bounded_push_room :
      (capacity : ℕ) (a : A) (q : List A)
      → length q < capacity
      → (bounded_push capacity a q).1 ≡ q ++ a ∷ []
  bounded_push_room capacity a q h = ground arith

  -- A value joins a ring with room for it.
  pub push_joins :
      (a : A) (r : Ring A)
      → IsRing r
      → length (contents r) < r.capacity
      → IsRing (push a r).1
        × (contents (push a r).1 ≡ contents r ++ a ∷ [])
        × ((push a r).1.capacity ≡ r.capacity)
  push_joins a r v room =
      let (v', said, now) = push-refines a r v in
      (v', now ∙ bounded_push_room r.capacity a (contents r) room, capacity-push a r)

  first_of : (a : A) (q r : List A) → some (a, q) ≡ bounded_pop r → r ≡ a ∷ q
  first_of a q [] h = cc
  first_of a q (b ∷ r) h = cc

  none_left : (q : List A) → none ≡ bounded_pop q → q ≡ []
  none_left [] h = refl
  none_left (a ∷ q) h = cc

  -- What a pop takes was at the front, and a pop is refused where nothing is held.
  pub pop-some :
      (r : Ring A) (a : A) (q : Ring A)
      → IsRing r
      → pop r ≡ some (a, q)
      → IsRing q × (contents r ≡ a ∷ contents q)
  pop-some r a q v h =
      let (still, same) = pop-refines r v in
      (subst StillRing h still, first_of a (contents q) (contents r) (ap seen (sym h) ∙ same))

  pub pop-none : (r : Ring A) → IsRing r → pop r ≡ none → contents r ≡ []
  pop-none r v h = none_left (contents r) (ap seen (sym h) ∙ (pop-refines r v).1)

  -- Any run of pushes and pops on a ring buffer answers as the bounded queue of its capacity and contents
  -- does: first in, first out, refused when full or empty, through every wrap of the indices.
  pub run-refines :
      (ops : List (QueueOp A)) (r : Ring A)
      → IsRing r
      → run_ring ops r ≡ run_queue r.capacity ops (contents r)
  run-refines [] r v = refl
  run-refines (put_in a ∷ ops) r v =
      let (v', same, now) = push-refines a r v in
      ap₂ (λ b rest. accepted b ∷ rest) same
        (run-refines ops (push a r).1 v' ∙ ap₂ (λ c q. run_queue c ops q) (capacity-push a r) now)
  run-refines (take_out ∷ ops) r v =
      let (v', got, left) = after_pop-refines r v in
      ap₂ (λ g rest. taken g ∷ rest) got
        (run-refines ops (after_pop r (pop r)).1 v'
          ∙ ap₂ (λ c q. run_queue c ops q) (capacity-pop r) left)
