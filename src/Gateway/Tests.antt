-- ===== src/Gateway/Tests.antt =====
-- The gateway's properties at a table of two connections and a buffer of two frames.
use flux_trade.Prelude.{
  ℕ, zero, suc, ◌+◌, ◌≤◌, ◌∷◌, [], List, true, false, none, some, ◌≡◌, refl, arith, get_or,
  if◌then◌else◌,
}
use flux_trade.Prelude.Int.{pos, eqb_ℤ}
use flux_trade.Common.Ring.{empty_ring}
use flux_trade.Gateway.Protocol.{header_size, header_at, word_at}
use flux_trade.Gateway.Commands.{blank_command}
use flux_trade.Gateway.Sessions.{
  ClientConnection, Sessions, fresh_connection, get_connection, remove_connection,
}
use flux_trade.Gateway.Inbound.{Gateway, request_of, is_login}
use flux_trade.Gateway.Framing.{decode, Outcome, parse_frames}
use flux_trade.Gateway.Frames.{
  MeetsEmpty, Framed, handle_frames, parse_frames_in_order, parse_frames_ends,
  zero_length_frame_never_ends,
}
use flux_trade.Gateway.Access.{LeavesState, no_orders_before_login}
use flux_trade.Gateway.SessionTable.{
  IsTable, Callback, run_callbacks, get-remove, run_callbacks-IsTable,
}

abbrev seven : ClientConnection
seven = record (fresh_connection (pos 7)) { authenticated = true; account_id = 2 }

abbrev two_connections : Sessions
two_connections = fresh_connection (pos 3) ∷ seven ∷ []

abbrev gateway : Gateway
gateway = record {
  sessions = two_connections;
  sequence = 1;
  inbound_queue = empty_ring blank_command 4;
  actions = [];
  clock_reads = 0;
}

-- A heartbeat, and a cancel of 48 bytes that follows it.
abbrev frames : ℕ → ℕ
frames i = get_or 0 i (
    24 ∷ 0 ∷ 1 ∷ 0 ∷ 0 ∷ 0 ∷ 0 ∷ 0 ∷ 0 ∷ 0 ∷ 0 ∷ 0 ∷ 0 ∷ 0 ∷ 0 ∷ 0 ∷ 0 ∷ 0 ∷ 0 ∷ 0 ∷ 0 ∷ 0 ∷ 0 ∷ 0
    ∷ 48 ∷ 0 ∷ 6 ∷ 0 ∷ [])

frames-Framed : Framed frames 0 (24 ∷ 48 ∷ [])
unfolding header_at word_at
frames-Framed = (omega arith, refl, (omega arith, refl, tt))

nothing_more : decode frames 72 0 ≡ none
unfolding decode
nothing_more = refl

parse_frames_in_order_example :
    parse_frames 3 (λ n. n) (pos 7) frames 72 0 gateway
    ≡ handle_frames (λ n. n) (pos 7) frames 0 (24 ∷ 48 ∷ []) gateway
parse_frames_in_order_example =
    parse_frames_in_order (λ n. n) (pos 7) frames 72 3 0 (24 ∷ 48 ∷ []) gateway (omega arith)
      frames-Framed (omega arith) nothing_more

-- A header of zeroes.
abbrev silence : ℕ → ℕ
silence i = 0

silence_no_login : is_login (request_of (header_at silence 0).type) ≡ false
unfolding header_at word_at request_of
silence_no_login = refl

silence_empty : (header_at silence 0).length ≡ 0
unfolding header_at word_at
silence_empty = refl

three_found : get_connection (pos 3) two_connections ≡ some (fresh_connection (pos 3))
unfolding get_connection
three_found = refl

zero_length_frame_never_ends_example :
    parse_frames 40 (λ n. n) (pos 3) silence 30 0 gateway ≡ Outcome.out_of_fuel
zero_length_frame_never_ends_example =
    zero_length_frame_never_ends (λ n. n) (pos 3) silence 30 0 (fresh_connection (pos 3)) 40 gateway
      (omega arith) silence_empty silence_no_login three_found refl

parse_frames_ends_example : MeetsEmpty silence 30 0
parse_frames_ends_example =
    parse_frames_ends (λ n. n) (pos 3) silence 30 40 0 gateway (omega arith) (omega arith)
      zero_length_frame_never_ends_example

frames_no_login :
    (i : ℕ) → i + header_size ≤ 24 → is_login (request_of (header_at frames i).type) ≡ false
unfolding header_at word_at request_of
frames_no_login zero h = refl
frames_no_login (suc i) h = absurd (omega arith)

no_orders_before_login_example :
    LeavesState gateway (parse_frames 3 (λ n. n) (pos 3) frames 24 0 gateway)
no_orders_before_login_example =
    no_orders_before_login (λ n. n) (pos 3) frames 24 (fresh_connection (pos 3)) frames_no_login
      refl 3 0 gateway three_found

two_connections-IsTable : IsTable two_connections
unfolding get_connection
two_connections-IsTable = record { unique = (refl, (refl, tt)); fits = omega arith }

get-remove_example :
    get_connection (pos 7) (remove_connection (pos 3) two_connections)
    ≡ (if eqb_ℤ (pos 3) (pos 7) then none else get_connection (pos 7) two_connections)
get-remove_example = get-remove (pos 3) (pos 7) two_connections two_connections-IsTable

abbrev comings : List Callback
comings = Callback.connect (pos 5) ∷ Callback.disconnect (pos 3) ∷ Callback.connect (pos 7) ∷ []

run_callbacks-IsTable_example : IsTable (run_callbacks comings two_connections)
run_callbacks-IsTable_example =
    run_callbacks-IsTable comings two_connections two_connections-IsTable
