-- ===== src/Gateway/Sessions.antt =====
-- gateway/include/gateway/client_connection.hpp and session_manager.hpp. The first `active_count_`
-- connections of the array are a list.
use flux_trade.Prelude.{
  ℕ, Bool, true, false, Option, none, some, List, [], ◌∷◌, ◌++◌, length, leb, ◌==◌, ◌||◌,
  if◌then◌else◌,
}
use flux_trade.Prelude.Int.{ℤ, eqb_ℤ}

pub record ClientConnection : Type 0 where
  pub conn_id : ℤ
  pub client_id : ℕ
  pub account_id : ℕ
  pub authenticated : Bool
  pub last_heartbeat_ts : ℕ
  pub next_inbound_seq : ℕ
  pub next_outbound_seq : ℕ
  pub buffer : ℕ → ℕ
  pub buffer_len : ℕ

abbrev pub buffer_size : ℕ
buffer_size = 8192

abbrev pub max_connections : ℕ
max_connections = 64

abbrev pub fresh_connection : ℤ → ClientConnection
fresh_connection id = record {
  conn_id = id;
  client_id = 0;
  account_id = 0;
  authenticated = false;
  last_heartbeat_ts = 0;
  next_inbound_seq = 1;
  next_outbound_seq = 1;
  buffer = λ i. 0;
  buffer_len = 0;
}

abbrev pub Sessions : Type 0
Sessions = List ClientConnection

unfoldable pub get_connection : ℤ → Sessions → Option ClientConnection
get_connection id [] = none
get_connection id (c ∷ cs) = if eqb_ℤ c.conn_id id then some c else get_connection id cs

-- Writes a connection that the table holds, by its id.
unfoldable pub write_connection : ClientConnection → Sessions → Sessions
write_connection conn [] = []
write_connection conn (c ∷ cs) =
    if eqb_ℤ c.conn_id conn.conn_id then conn ∷ cs else c ∷ write_connection conn cs

unfoldable pub create_connection : ℤ → Sessions → Option ClientConnection × Sessions
create_connection id cs =
    if leb max_connections (length cs) then (none, cs) else elim (get_connection id cs) [
      | some conn ↦ (some conn, cs)
      | none ↦ (some (fresh_connection id), cs ++ fresh_connection id ∷ [])
    ]

-- The last connection takes the place of the one that is removed.
unfoldable pub move_last : Sessions → Sessions
move_last [] = []
move_last (c ∷ cs) = elim (move_last cs) [ [] ↦ c ∷ [] | last ∷ others ↦ last ∷ c ∷ others ]

unfoldable pub remove_connection : ℤ → Sessions → Sessions
remove_connection id [] = []
remove_connection id (c ∷ cs) =
    if eqb_ℤ c.conn_id id then move_last cs else c ∷ remove_connection id cs

unfoldable pub authenticate : ℤ → ℕ → ℕ → ℕ → ℕ → Sessions → Bool × Sessions
authenticate id client_id account_id username_start password_start cs =
    elim (get_connection id cs) [
      | none ↦ (false, cs)
      | some conn ↦ if (username_start == 0) || (password_start == 0) then (false, cs) else (
        true,
        write_connection
            (record conn {
              client_id = client_id;
              account_id = account_id;
              authenticated = true;
              last_heartbeat_ts = 0;
            })
            cs,
      )
    ]

abbrev pub no_sessions : Sessions
no_sessions = []
