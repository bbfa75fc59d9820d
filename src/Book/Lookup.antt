-- ===== src/Book/Lookup.antt =====
-- matching/order_book/order_lookup.hpp: order ids to the addresses of live orders.
use flux_trade.Prelude.{ℕ, Option, none, some, List, [], ◌∷◌, ◌≡◌, refl, arith, ◌==◌, if◌then◌else◌}

abbrev pub OrderLookup : Type 0
OrderLookup = List (ℕ × ℕ)

unfoldable pub find : ℕ → OrderLookup → Option ℕ
find id [] = none
find id ((k, slot) ∷ m) = if k == id then some slot else find id m

-- `lookup_[id] = order` overwrites.
unfoldable pub insert : ℕ → ℕ → OrderLookup → OrderLookup
insert id slot [] = (id, slot) ∷ []
insert id slot ((k, s) ∷ m) = if k == id then (id, slot) ∷ m else (k, s) ∷ insert id slot m

unfoldable pub erase : ℕ → OrderLookup → OrderLookup
erase id [] = []
erase id ((k, s) ∷ m) = if k == id then erase id m else (k, s) ∷ erase id m

-- After an insertion the id leads to its slot, in place of any that it led to, and every other id to
-- what it led to.
pub find-insert :
    (j id slot : ℕ) (m : OrderLookup)
    → find j (insert id slot m) ≡ (if id == j then some slot else find j m)
unfolding find insert
find-insert j id slot [] = refl
find-insert j id slot ((k, s) ∷ m) = ground (arith, find-insert j id slot m)

-- After an erasure the id leads nowhere, and every other id to what it led to.
pub find-erase :
    (j id : ℕ) (m : OrderLookup) → find j (erase id m) ≡ (if id == j then none else find j m)
unfolding find erase
find-erase j id [] = ground arith
find-erase j id ((k, s) ∷ m) = ground (arith, find-erase j id m)
