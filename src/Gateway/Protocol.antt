-- ===== src/Gateway/Protocol.antt =====
-- gateway/include/gateway/protocol.hpp and packet_encoder.hpp. Inbound packets are read from bytes at the
-- offsets of the source's structures, in little-endian order as on the platforms it builds for; outbound
-- packets are records, with the sizes of those structures. Padding is left out.
use flux_trade.Prelude.{ℕ, zero, suc, ◌+◌, ◌*◌, Bool, Option, none, some, ltb, if◌then◌else◌}

pub data MessageType : Type 0 where
  heartbeat login_request login_response logout : MessageType
  new_order cancel_order replace_order execution_report : MessageType
  reject trade book_update : MessageType

abbrev pub type_code : MessageType → ℕ
type_code MessageType.heartbeat = 1
type_code MessageType.login_request = 2
type_code MessageType.login_response = 3
type_code MessageType.logout = 4
type_code MessageType.new_order = 5
type_code MessageType.cancel_order = 6
type_code MessageType.replace_order = 7
type_code MessageType.execution_report = 8
type_code MessageType.reject = 9
type_code MessageType.trade = 10
type_code MessageType.book_update = 11

pub record MessageHeader : Type 0 where
  pub length : ℕ
  pub type : ℕ
  pub sequence : ℕ
  pub timestamp : ℕ

abbrev pub header_size : ℕ
header_size = 24

-- The n bytes from an index on, as a number.
unfoldable pub word_at : ℕ → (ℕ → ℕ) → ℕ → ℕ
word_at zero bytes i = 0
word_at (suc n) bytes i = bytes i + 256 * word_at n bytes (i + 1)

unfoldable pub header_at : (ℕ → ℕ) → ℕ → MessageHeader
header_at bytes i = record {
  length = word_at 2 bytes i;
  type = word_at 2 bytes (i + 2);
  sequence = word_at 8 bytes (i + 8);
  timestamp = word_at 8 bytes (i + 16);
}

-- Of the user name and the password only the first byte is looked at.
pub record LoginRequest : Type 0 where
  pub client_id : ℕ
  pub account_id : ℕ
  pub username_start : ℕ
  pub password_start : ℕ

unfoldable pub login_at : (ℕ → ℕ) → ℕ → LoginRequest
login_at bytes i = record {
  client_id = word_at 4 bytes (i + 24);
  account_id = word_at 4 bytes (i + 28);
  username_start = bytes (i + 32);
  password_start = bytes (i + 48);
}

pub record NewOrderPacket : Type 0 where
  pub client_order_id : ℕ
  pub symbol_id : ℕ
  pub account_id : ℕ
  pub price_ticks : ℕ
  pub qty_units : ℕ
  pub side : ℕ
  pub type : ℕ
  pub tif : ℕ

unfoldable pub new_order_at : (ℕ → ℕ) → ℕ → NewOrderPacket
new_order_at bytes i = record {
  client_order_id = word_at 8 bytes (i + 24);
  symbol_id = word_at 4 bytes (i + 32);
  account_id = word_at 4 bytes (i + 36);
  price_ticks = word_at 8 bytes (i + 40);
  qty_units = word_at 8 bytes (i + 48);
  side = bytes (i + 56);
  type = bytes (i + 57);
  tif = bytes (i + 58);
}

pub record CancelOrderPacket : Type 0 where
  pub client_order_id : ℕ
  pub orig_client_order_id : ℕ
  pub symbol_id : ℕ
  pub account_id : ℕ

unfoldable pub cancel_order_at : (ℕ → ℕ) → ℕ → CancelOrderPacket
cancel_order_at bytes i = record {
  client_order_id = word_at 8 bytes (i + 24);
  orig_client_order_id = word_at 8 bytes (i + 32);
  symbol_id = word_at 4 bytes (i + 40);
  account_id = word_at 4 bytes (i + 44);
}

pub record ReplaceOrderPacket : Type 0 where
  pub client_order_id : ℕ
  pub orig_client_order_id : ℕ
  pub symbol_id : ℕ
  pub account_id : ℕ
  pub price_ticks : ℕ
  pub qty_units : ℕ

unfoldable pub replace_order_at : (ℕ → ℕ) → ℕ → ReplaceOrderPacket
replace_order_at bytes i = record {
  client_order_id = word_at 8 bytes (i + 24);
  orig_client_order_id = word_at 8 bytes (i + 32);
  symbol_id = word_at 4 bytes (i + 40);
  account_id = word_at 4 bytes (i + 44);
  price_ticks = word_at 8 bytes (i + 48);
  qty_units = word_at 8 bytes (i + 56);
}

-- The size of the structure that a message's bytes are read as, by its type.
abbrev pub packet_size : MessageType → ℕ
packet_size MessageType.login_request = 64
packet_size MessageType.new_order = 64
packet_size MessageType.cancel_order = 48
packet_size MessageType.replace_order = 64
packet_size _ = 24

pub record LoginResponsePacket : Type 0 where
  pub client_id : ℕ
  pub account_id : ℕ
  pub success : Bool

pub record RejectPacket : Type 0 where
  pub client_order_id : ℕ
  pub account_id : ℕ
  pub reason : ℕ

pub record ExecutionReportPacket : Type 0 where
  pub order_id : ℕ
  pub client_order_id : ℕ
  pub symbol_id : ℕ
  pub account_id : ℕ
  pub price_ticks : ℕ
  pub qty_units : ℕ
  pub filled_qty : ℕ
  pub remaining_qty : ℕ
  pub side : ℕ
  pub status : ℕ

-- The body of an outbound packet. A login response's reason is "Auth Failure" where it fails.
pub data Packet : Type 0 where
  login_response : LoginResponsePacket → Packet
  rejection : RejectPacket → Packet
  execution : ExecutionReportPacket → Packet
  echo : Packet

abbrev pub size_of : Packet → ℕ
size_of (Packet.login_response p) = 56
size_of (Packet.rejection p) = 48
size_of (Packet.execution p) = 88
size_of Packet.echo = 24

pub record Message : Type 0 where
  pub header : MessageHeader
  pub packet : Packet

-- PacketEncoder::encode: `none` is its 0, for a destination that is too small.
unfoldable pub encode : ℕ → MessageType → ℕ → ℕ → Packet → Option Message
encode dest_len type seq ts packet =
    if ltb dest_len (size_of packet)
    then none
    else some (record {
      header = record {
        length = size_of packet;
        type = type_code type;
        sequence = seq;
        timestamp = ts;
      };
      packet = packet;
    })
