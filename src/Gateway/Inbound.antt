-- ===== src/Gateway/Inbound.antt =====
-- Gateway::handle_packet of gateway/src/gateway.cpp. The transport is set, and what the gateway asks of it
-- is a list of actions; the readings of the clock are a function of their number. `none` is a read past
-- the end of the connection's buffer.
use flux_trade.Prelude.{
  ℕ, ◌+◌, Bool, true, false, not, ◌&&◌, Option, none, some, List, [], ◌∷◌, ◌++◌, ltb, ◌==◌,
  if◌then◌else◌,
}
use flux_trade.Prelude.Int.{ℤ}
use flux_trade.Prelude.Words.{to_i64}
use flux_trade.Domain.{Side, buy, sell, OrderType, time_in_force_of, RejectReason, reason_code}
use flux_trade.Common.Ring.{Ring, push}
use flux_trade.Gateway.Protocol.{
  MessageType, type_code, MessageHeader, login_at, new_order_at, cancel_order_at, replace_order_at,
  packet_size, Packet, Message, encode,
}
use flux_trade.Gateway.Commands.{CommandType, OrderCommand, blank_command, next_sequence}
use flux_trade.Gateway.Sessions.{
  ClientConnection, Sessions, get_connection, write_connection, authenticate,
}

pub data Action : Type 0 where
  send : ℤ → Message → Action
  disconnect : ℤ → Action

pub record Gateway : Type 0 where
  pub sessions : Sessions
  pub sequence : ℕ
  pub inbound_queue : Ring OrderCommand
  pub actions : List Action
  pub clock_reads : ℕ

abbrev pub write_buffer_size : ℕ
write_buffer_size = 8192

-- send_packet, with what the transport is given.
unfoldable pub send_packet : ℤ → MessageType → ℕ → ℕ → Packet → Gateway → Gateway
send_packet conn_id type seq ts packet g = elim (encode write_buffer_size type seq ts packet) [
  | none ↦ g
  | some message ↦ record g { actions = g.actions ++ Action.send conn_id message ∷ [] }
]

abbrev pub read_clock : (ℕ → ℕ) → Gateway → ℕ × Gateway
read_clock clock g = (clock g.clock_reads, record g { clock_reads = g.clock_reads + 1 })

-- A command in the inbound queue; a full queue drops it.
unfoldable pub enqueue : OrderCommand → Gateway → Gateway
enqueue cmd g = record g { inbound_queue = (push cmd g.inbound_queue).1 }

-- The sequence number and the time stamp of a command.
unfoldable pub stamped : (ℕ → ℕ) → OrderCommand → Gateway → OrderCommand × Gateway
stamped clock cmd g =
    let (seq, next) = next_sequence g.sequence in
    let (now, g') = read_clock clock (record g { sequence = next }) in
    (record cmd { sequence = seq; timestamp = now }, g')

unfoldable pub submit_command : (ℕ → ℕ) → OrderCommand → Gateway → Gateway
submit_command clock cmd g = let (cmd', g') = stamped clock cmd g in enqueue cmd' g'

abbrev pub side_of : ℕ → Side
side_of n = if n == 0 then buy else sell

abbrev pub order_type_of : ℕ → OrderType
order_type_of n = if n == 0 then OrderType.limit else OrderType.market

-- The commands of the three order packets that start at an index of the buffer.
unfoldable pub new_order_command : ℤ → (ℕ → ℕ) → ℕ → OrderCommand
new_order_command conn_id bytes i =
    let packet = new_order_at bytes i in
    record blank_command {
      type = CommandType.new_order;
      client_order_id = packet.client_order_id;
      symbol_id = packet.symbol_id;
      account_id = packet.account_id;
      price = to_i64 packet.price_ticks;
      qty = packet.qty_units;
      side = side_of packet.side;
      order_type = order_type_of packet.type;
      tif = time_in_force_of packet.tif;
      conn_id = conn_id;
    }

unfoldable pub cancel_order_command : ℤ → (ℕ → ℕ) → ℕ → OrderCommand
cancel_order_command conn_id bytes i =
    let packet = cancel_order_at bytes i in
    record blank_command {
      type = CommandType.cancel_order;
      client_order_id = packet.client_order_id;
      orig_client_order_id = packet.orig_client_order_id;
      symbol_id = packet.symbol_id;
      account_id = packet.account_id;
      conn_id = conn_id;
    }

unfoldable pub replace_order_command : ℤ → (ℕ → ℕ) → ℕ → OrderCommand
replace_order_command conn_id bytes i =
    let packet = replace_order_at bytes i in
    record blank_command {
      type = CommandType.replace_order;
      client_order_id = packet.client_order_id;
      orig_client_order_id = packet.orig_client_order_id;
      symbol_id = packet.symbol_id;
      account_id = packet.account_id;
      price = to_i64 packet.price_ticks;
      qty = packet.qty_units;
      conn_id = conn_id;
    }

unfoldable pub handle_login : (ℕ → ℕ) → ℤ → (ℕ → ℕ) → ℕ → Gateway → Gateway
handle_login clock conn_id bytes i g =
    let packet = login_at bytes i in
    let (ok, sessions) =
      authenticate conn_id packet.client_id packet.account_id packet.username_start
        packet.password_start g.sessions in
    let (now, g') = read_clock clock (record g { sessions = sessions }) in
    send_packet conn_id MessageType.login_response 0 now
      (Packet.login_response
        (record { client_id = packet.client_id; account_id = packet.account_id; success = ok }))
      g'

unfoldable pub reject_unauthenticated : (ℕ → ℕ) → ℤ → Gateway → Gateway
reject_unauthenticated clock conn_id g =
    let (now, g') = read_clock clock g in
    send_packet conn_id MessageType.reject 0 now
      (Packet.rejection
        (record { client_order_id = 0; account_id = 0; reason = reason_code RejectReason.none }))
      g'

unfoldable pub handle_heartbeat : (ℕ → ℕ) → ClientConnection → Gateway → Gateway
handle_heartbeat clock conn g =
    let (now, g') = read_clock clock g in
    let (sent, g'') = read_clock clock (record g' {
      sessions = write_connection (record conn { last_heartbeat_ts = now }) g'.sessions;
    }) in
    send_packet conn.conn_id MessageType.heartbeat 0 sent Packet.echo g''

-- What the code of a header's type means to the gateway: the requests that it handles.
pub data Request : Type 0 where
  login heartbeat logout new_order cancel_order replace_order ignored : Request

unfoldable pub request_of : ℕ → Request
request_of code =
    if code == type_code MessageType.login_request
    then Request.login
    else if code == type_code MessageType.heartbeat
    then Request.heartbeat
    else if code == type_code MessageType.logout
    then Request.logout
    else if code == type_code MessageType.new_order
    then Request.new_order
    else if code == type_code MessageType.cancel_order
    then Request.cancel_order
    else if code == type_code MessageType.replace_order
    then Request.replace_order
    else Request.ignored

-- The bytes of the structure that a request is read as.
abbrev pub request_size : Request → ℕ
request_size Request.login = packet_size MessageType.login_request
request_size Request.heartbeat = 0
request_size Request.logout = 0
request_size Request.new_order = packet_size MessageType.new_order
request_size Request.cancel_order = packet_size MessageType.cancel_order
request_size Request.replace_order = packet_size MessageType.replace_order
request_size Request.ignored = 0

-- A request of a connection that has logged in.
unfoldable pub handle_request :
    (ℕ → ℕ) → Request → ClientConnection → (ℕ → ℕ) → ℕ → Gateway → Gateway
handle_request clock Request.login conn bytes i g = handle_login clock conn.conn_id bytes i g
handle_request clock Request.heartbeat conn bytes i g = handle_heartbeat clock conn g
handle_request clock Request.logout conn bytes i g = record g {
  sessions = write_connection (record conn { authenticated = false }) g.sessions;
}
handle_request clock Request.new_order conn bytes i g =
    submit_command clock (new_order_command conn.conn_id bytes i) g
handle_request clock Request.cancel_order conn bytes i g =
    submit_command clock (cancel_order_command conn.conn_id bytes i) g
handle_request clock Request.replace_order conn bytes i g =
    submit_command clock (replace_order_command conn.conn_id bytes i) g
handle_request clock Request.ignored conn bytes i g = g

abbrev pub is_login : Request → Bool
is_login Request.login = true
is_login _ = false

-- The packet that starts at index `i` of the buffer of `limit` bytes. Only what is read is asked to lie
-- within it: an unauthenticated order is rejected unread.
unfoldable pub handle_packet :
    (ℕ → ℕ) → ℕ → ℤ → MessageHeader → (ℕ → ℕ) → ℕ → Gateway → Option Gateway
handle_packet clock limit conn_id header bytes i g = elim (get_connection conn_id g.sessions) [
  | none ↦ some g
  | some conn ↦
      let request = request_of header.type in
      if not conn.authenticated && not (is_login request)
      then some (reject_unauthenticated clock conn_id g)
      else if ltb limit (i + request_size request)
      then none
      else some (handle_request clock request conn bytes i g)
]
