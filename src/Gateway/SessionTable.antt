-- ===== src/Gateway/SessionTable.antt =====
-- The laws of the connection table of gateway/include/gateway/session_manager.hpp.
use flux_trade.Prelude.{
  ◌≤◌, true, none, some, List, [], ◌∷◌, ◌++◌, ◌≡◌, refl, ap, sym, ◌∙◌, arith, leb, length,
  length-append, if◌then◌else◌, Bool-cases, Option-cases, inl, inr,
}
use flux_trade.Prelude.Int.{ℤ, eqb_ℤ, eqb_ℤ→eq}
use flux_trade.Gateway.Sessions.{
  ClientConnection, Sessions, max_connections, fresh_connection, get_connection, create_connection,
  move_last, remove_connection,
}

-- No two connections of the table have one id.
abbrev pub HasUniqueIds : Sessions → Type 0
HasUniqueIds [] = Unit
HasUniqueIds (c ∷ cs) = (get_connection c.conn_id cs ≡ none) × HasUniqueIds cs

pub record IsTable (cs : Sessions) : Type 0 where
  pub unique : HasUniqueIds cs
  pub fits : length cs ≤ max_connections

get-cons :
    (j : ℤ) (c : ClientConnection) (cs : Sessions)
    → get_connection j (c ∷ cs) ≡ (if eqb_ℤ c.conn_id j then some c else get_connection j cs)
unfolding get_connection
get-cons j c cs = refl

move_last-cons :
    (c : ClientConnection) (cs : Sessions)
    → move_last (c ∷ cs) ≡ elim (move_last cs) [ [] ↦ c ∷ [] | last ∷ others ↦ last ∷ c ∷ others ]
unfolding move_last
move_last-cons c cs = refl

-- The same connections, by their ids.
abbrev SameConnections : Sessions → Sessions → Type 0
SameConnections cs ds =
    ((j : ℤ) → get_connection j ds ≡ get_connection j cs)
    × HasUniqueIds ds
    × (length ds ≡ length cs)

same_swap :
    (c d : ClientConnection) (cs ds : Sessions)
    → HasUniqueIds (c ∷ cs)
    → SameConnections cs (d ∷ ds)
    → SameConnections (c ∷ cs) (d ∷ c ∷ ds)
unfolding get_connection
same_swap c d cs ds (fresh, u) (look, (first, rest), len) = (
  λ j. ground (arith, look j, look c.conn_id),
  (ground (arith, look c.conn_id), (ground (arith, look c.conn_id), rest)),
  omega (arith, len),
)

same_move :
    (c : ClientConnection) (cs ms : Sessions)
    → HasUniqueIds (c ∷ cs)
    → SameConnections cs ms
    → SameConnections (c ∷ cs) (elim ms [ [] ↦ c ∷ [] | last ∷ others ↦ last ∷ c ∷ others ])
same_move c [] [] u same = (λ j. refl, u, refl)
same_move c (d ∷ cs) [] u (look, v, len) = absurd (omega (arith, len))
same_move c cs (d ∷ ds) u same = same_swap c d cs ds u same

move_last-SameConnections : (cs : Sessions) → HasUniqueIds cs → SameConnections cs (move_last cs)
unfolding move_last
move_last-SameConnections [] u = (λ j. refl, tt, refl)
move_last-SameConnections (c ∷ cs) u =
    same_move c cs (move_last cs) u (move_last-SameConnections cs u.1)

fresh_at :
    (i j : ℤ) (cs : Sessions)
    → eqb_ℤ i j ≡ true
    → get_connection i cs ≡ none
    → get_connection j cs ≡ none
fresh_at i j cs e h = ap (λ k. get_connection k cs) (sym (eqb_ℤ→eq i j e)) ∙ h

get-remove_unique :
    (id j : ℤ) (cs : Sessions)
    → HasUniqueIds cs
    → get_connection j (remove_connection id cs)
      ≡ (if eqb_ℤ id j then none else get_connection j cs)
unfolding get_connection remove_connection
get-remove_unique id j [] u = ground arith
get-remove_unique id j (c ∷ cs) (fresh, u) = elim (Bool-cases (eqb_ℤ c.conn_id id)) [
  | inl same ↦
      rw same (ground (arith, (move_last-SameConnections cs u).0 j, fresh_at c.conn_id j cs))
  | inr other ↦ rw other (ground (arith, get-remove_unique id j cs u))
]

remove-HasUniqueIds :
    (id : ℤ) (cs : Sessions) → HasUniqueIds cs → HasUniqueIds (remove_connection id cs)
unfolding remove_connection
remove-HasUniqueIds id [] u = tt
remove-HasUniqueIds id (c ∷ cs) (fresh, u) = elim (Bool-cases (eqb_ℤ c.conn_id id)) [
  | inl same ↦ rw same (move_last-SameConnections cs u).1
  | inr other ↦
      rw other
        (ground (arith, get-remove_unique id c.conn_id cs u, fresh), remove-HasUniqueIds id cs u)
]

length-remove :
    (id : ℤ) (cs : Sessions) → HasUniqueIds cs → length (remove_connection id cs) ≤ length cs
unfolding remove_connection
length-remove id [] u = omega arith
length-remove id (c ∷ cs) (fresh, u) = elim (Bool-cases (eqb_ℤ c.conn_id id)) [
  | inl same ↦ rw same (omega (arith, (move_last-SameConnections cs u).2))
  | inr other ↦ rw other (omega (arith, length-remove id cs u))
]

get-append :
    (j : ℤ) (cs : Sessions) (c : ClientConnection)
    → get_connection j (cs ++ c ∷ []) ≡ elim (get_connection j cs) [
      | some found ↦ some found
      | none ↦ if eqb_ℤ c.conn_id j then some c else none
    ]
unfolding get_connection
get-append j [] c = refl
get-append j (d ∷ cs) c = ground (arith, get-append j cs c)

append-HasUniqueIds :
    (cs : Sessions) (c : ClientConnection)
    → HasUniqueIds cs
    → get_connection c.conn_id cs ≡ none
    → HasUniqueIds (cs ++ c ∷ [])
unfolding get_connection
append-HasUniqueIds [] c u h = (refl, tt)
append-HasUniqueIds (d ∷ cs) c (fresh, u) h = (
  get-append d.conn_id cs c ∙ ground (arith, fresh, h),
  append-HasUniqueIds cs c u (ground (arith, h)),
)

-- A callback of the transport.
pub data Callback : Type 0 where
  connect disconnect : ℤ → Callback

abbrev pub run_callbacks : List Callback → Sessions → Sessions
run_callbacks [] cs = cs
run_callbacks (Callback.connect id ∷ es) cs = run_callbacks es (create_connection id cs).1
run_callbacks (Callback.disconnect id ∷ es) cs = run_callbacks es (remove_connection id cs)

-- Removing a connection from a table with unique ids leaves the lookups of all others as they were, and
-- its own without a result.
pub get-remove :
    (id j : ℤ) (cs : Sessions)
    → IsTable cs
    → get_connection j (remove_connection id cs)
      ≡ (if eqb_ℤ id j then none else get_connection j cs)
get-remove id j cs t = get-remove_unique id j cs t.unique

-- A connection that is created is found under its id, unless the table is full, and no lookup that had
-- a result gets another one.
pub get-create :
    (id j : ℤ) (cs : Sessions)
    → get_connection j (create_connection id cs).1 ≡ elim (get_connection j cs) [
      | some found ↦ some found
      | none ↦
          if leb max_connections (length cs)
          then none
          else if eqb_ℤ id j
          then some (fresh_connection id)
          else none
    ]
unfolding create_connection
get-create id j cs =
    ground (arith, get-append j cs (fresh_connection id), fresh_at j id cs, fresh_at id j cs)

create-IsTable : (id : ℤ) (cs : Sessions) → IsTable cs → IsTable (create_connection id cs).1
unfolding create_connection
create-IsTable id cs t = elim (Bool-cases (leb max_connections (length cs))) [
  | inl full ↦ rw full t
  | inr room ↦ elim (Option-cases (get_connection id cs)) [
    | inr (conn, found) ↦ rw (room, found) t
    | inl new ↦
        rw (room, new)
          (record {
            unique = append-HasUniqueIds cs (fresh_connection id) t.unique new;
            fits = ground (arith, length-append cs (fresh_connection id ∷ []));
          })
  ]
]

remove-IsTable : (id : ℤ) (cs : Sessions) → IsTable cs → IsTable (remove_connection id cs)
remove-IsTable id cs t = record {
  unique = remove-HasUniqueIds id cs t.unique;
  fits = omega (arith, length-remove id cs t.unique, t.fits);
}

-- After any connects and disconnects of a table with unique ids and at most 64 connections, the table
-- has unique ids and at most 64 connections.
pub run_callbacks-IsTable :
    (es : List Callback) (cs : Sessions) → IsTable cs → IsTable (run_callbacks es cs)
run_callbacks-IsTable [] cs t = t
run_callbacks-IsTable (Callback.connect id ∷ es) cs t =
    run_callbacks-IsTable es _ (create-IsTable id cs t)
run_callbacks-IsTable (Callback.disconnect id ∷ es) cs t =
    run_callbacks-IsTable es _ (remove-IsTable id cs t)
