-- ===== src/Gateway/Framing.antt =====
-- gateway/include/gateway/packet_decoder.hpp, the frame parser of Gateway::on_read, and the other
-- callbacks of gateway/src/gateway.cpp.
use flux_trade.Prelude.{
  ℕ, zero, suc, ◌+◌, ◌-◌, true, false, Option, none, some, List, [], ◌∷◌, ◌++◌, ltb, if◌then◌else◌,
  length, get_or,
}
use flux_trade.Prelude.Int.{ℤ}
use flux_trade.Gateway.Protocol.{MessageHeader, header_size, header_at}
use flux_trade.Gateway.Sessions.{
  ClientConnection, buffer_size, get_connection, write_connection, create_connection,
  remove_connection, no_sessions,
}
use flux_trade.Gateway.Inbound.{Action, Gateway, handle_packet}

-- PacketDecoder::decode of the `len` bytes from index `i` on: the header, whose length is the return value.
unfoldable pub decode : (ℕ → ℕ) → ℕ → ℕ → Option MessageHeader
decode bytes i len =
    if ltb len header_size
    then none
    else if ltb len (header_at bytes i).length
    then none
    else some (header_at bytes i)

-- How a run may end: well, in undefined behaviour, or not within its fuel.
pub data Outcome {ℓ} (A : Type ℓ) : Type ℓ where
  done : A → Outcome A
  undefined out_of_fuel : Outcome A

-- The frame parser loop, from the bytes processed so far.
unfoldable pub parse_frames : ℕ → (ℕ → ℕ) → ℤ → (ℕ → ℕ) → ℕ → ℕ → Gateway → Outcome (ℕ × Gateway)
parse_frames zero clock conn_id bytes len processed g = Outcome.out_of_fuel
parse_frames (suc fuel) clock conn_id bytes len processed g = elim (ltb processed len) [
  | false ↦ Outcome.done (processed, g)
  | true ↦ elim (decode bytes processed (len - processed)) [
    | none ↦ Outcome.done (processed, g)
    | some header ↦ elim (handle_packet clock buffer_size conn_id header bytes processed g) [
      | none ↦ Outcome.undefined
      | some g' ↦ parse_frames fuel clock conn_id bytes len (processed + header.length) g'
    ]
  ]
]

-- memcpy of data behind the first `len` bytes.
abbrev pub copy_in : (ℕ → ℕ) → ℕ → List ℕ → ℕ → ℕ
copy_in bytes len chunk i = if ltb i len then bytes i else get_or (bytes i) (i - len) chunk

-- memmove of the bytes from `processed` up to `len` to the front.
abbrev pub shift_out : (ℕ → ℕ) → ℕ → ℕ → ℕ → ℕ
shift_out bytes len processed i = if ltb i (len - processed) then bytes (i + processed) else bytes i

-- The buffer of a connection after the loop.
unfoldable pub keep_rest : (ℕ → ℕ) → ℕ → ℕ → ClientConnection → ClientConnection
keep_rest bytes len processed conn =
    if ltb 0 processed
    then if ltb processed len
      then record conn { buffer = shift_out bytes len processed; buffer_len = len - processed }
      else record conn { buffer = bytes; buffer_len = 0 }
    else record conn { buffer = bytes; buffer_len = len }

abbrev finish_read : ℤ → (ℕ → ℕ) → ℕ → Outcome (ℕ × Gateway) → Outcome Gateway
finish_read conn_id bytes len Outcome.undefined = Outcome.undefined
finish_read conn_id bytes len Outcome.out_of_fuel = Outcome.out_of_fuel
finish_read conn_id bytes len (Outcome.done (processed, g)) =
    elim (get_connection conn_id g.sessions) [
      | none ↦ Outcome.done g
      | some conn ↦
          Outcome.done (record g {
            sessions = write_connection (keep_rest bytes len processed conn) g.sessions;
          })
    ]

-- The loop changes no buffer, so the bytes are written once, when it has ended.
unfoldable pub on_read : ℕ → (ℕ → ℕ) → ℤ → List ℕ → Gateway → Outcome Gateway
on_read fuel clock conn_id chunk g = elim (get_connection conn_id g.sessions) [
  | none ↦ Outcome.done g
  | some conn ↦
      let len = conn.buffer_len + length chunk in
      let bytes = copy_in conn.buffer conn.buffer_len chunk in
      if ltb buffer_size len
      then Outcome.done (record g { actions = g.actions ++ Action.disconnect conn_id ∷ [] })
      else finish_read conn_id bytes len (parse_frames fuel clock conn_id bytes len 0 g)
]

unfoldable pub on_connect : ℤ → Gateway → Gateway
on_connect conn_id g = record g { sessions = (create_connection conn_id g.sessions).1 }

unfoldable pub on_disconnect : ℤ → Gateway → Gateway
on_disconnect conn_id g = record g { sessions = remove_connection conn_id g.sessions }

-- stop, beside what it asks of the transport.
unfoldable pub stop : Gateway → Gateway
stop g = record g { sessions = no_sessions }
