-- ===== src/Risk/Duplicates.antt =====
-- risk/include/risk/duplicate_validator.hpp. The array of 4096 ids is a function of the index.
use flux_trade.Prelude.{
  ℕ, ◌%◌, Bool, true, false, List, [], ◌∷◌, ◌≡◌, ◌≢◌, refl, ap, sym, ◌∙◌, arith, All, ◌==◌,
  if◌then◌else◌,
}
use flux_trade.Common.Table.{put}

abbrev pub map_size : ℕ
map_size = 4096

abbrev pub SeenIds : Type 0
SeenIds = ℕ → ℕ

unfoldable pub check_duplicate : ℕ → SeenIds → Bool × SeenIds
check_duplicate id seen =
    if id == 0
    then (true, seen)
    else if seen (id % map_size) == id
    then (false, seen)
    else (true, put (id % map_size) id seen)

unfoldable pub reset : SeenIds
reset i = 0

abbrev pub check_all : List ℕ → SeenIds → SeenIds
check_all [] seen = seen
check_all (id ∷ ids) seen = check_all ids (check_duplicate id seen).1

seen_after : (id : ℕ) (seen : SeenIds) → id ≢ 0 → (check_duplicate id seen).1 (id % map_size) ≡ id
unfolding check_duplicate
seen_after id seen h = ground arith

seen_kept :
    (id other : ℕ) (seen : SeenIds)
    → other % map_size ≢ id % map_size
    → (check_duplicate other seen).1 (id % map_size) ≡ seen (id % map_size)
unfolding check_duplicate
seen_kept id other seen h = ground arith

seen_through :
    (id : ℕ) (ids : List ℕ) (seen : SeenIds)
    → All (λ other. other % map_size ≢ id % map_size) ids
    → check_all ids seen (id % map_size) ≡ seen (id % map_size)
seen_through id [] seen h = refl
seen_through id (other ∷ ids) seen h =
    seen_through id ids (check_duplicate other seen).1 h.1 ∙ seen_kept id other seen h.0

rejected :
    (id : ℕ) (seen : SeenIds)
    → id ≢ 0
    → seen (id % map_size) ≡ id
    → (check_duplicate id seen).0 ≡ false
unfolding check_duplicate
rejected id seen h e = ground arith

passes : (id : ℕ) (seen : SeenIds) → seen (id % map_size) ≢ id → (check_duplicate id seen).0 ≡ true
unfolding check_duplicate
passes id seen h = ground arith

-- An id other than 0 that has been checked is rejected when it comes again, as long as no id checked in
-- between is equal to it modulo 4096.
pub repeated_id_rejected :
    (id : ℕ) (between : List ℕ) (seen : SeenIds)
    → id ≢ 0
    → All (λ other. other % map_size ≢ id % map_size) between
    → (check_duplicate id (check_all between (check_duplicate id seen).1)).0 ≡ false
repeated_id_rejected id between seen h apart =
    rejected id (check_all between (check_duplicate id seen).1) h
      (seen_through id between (check_duplicate id seen).1 apart ∙ seen_after id seen h)

-- An id that has been checked passes again once a different id other than 0 that is equal to it modulo
-- 4096 has been checked: the table forgets it.
pub collision_forgets :
    (id other : ℕ) (seen : SeenIds)
    → other ≢ 0
    → other ≢ id
    → other % map_size ≡ id % map_size
    → (check_duplicate id (check_duplicate other (check_duplicate id seen).1).1).0 ≡ true
collision_forgets id other seen h k e =
    let first = (check_duplicate id seen).1 in
    let taken : (check_duplicate other first).1 (id % map_size) ≡ other =
      ap (check_duplicate other first).1 (sym e) ∙ seen_after other first h in
    passes id (check_duplicate other first).1 (omega (arith, taken))
