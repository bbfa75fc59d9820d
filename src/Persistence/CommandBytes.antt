-- ===== src/Persistence/CommandBytes.antt =====
-- The 72 bytes of an OrderCommand (gateway/include/gateway/order_command.hpp) in memory, as the journal
-- writes them and replay_engine.hpp reads them back.
use flux_trade.Prelude.{ℕ, ◌-◌, ◌%◌, ◌<◌, ◌==◌, if◌then◌else◌, List, ◌++◌, ◌≡◌, refl, arith, length}
use flux_trade.Prelude.Int.{ℤ, pos, negsuc}
use flux_trade.Prelude.Words.{u32_mod, u64_mod, to_u64, to_i64}
use flux_trade.Domain.{Side, buy, sell, OrderType, TimeInForce, time_in_force_of, Price, Quantity}
use flux_trade.Gateway.Commands.{CommandType, OrderCommand}
use flux_trade.Persistence.Bytes.{bytes_of, take_word, take_word-bytes_of}

abbrev pub command_code : CommandType → ℕ
command_code CommandType.new_order = 0
command_code CommandType.cancel_order = 1
command_code CommandType.replace_order = 2

abbrev side_code : Side → ℕ
side_code buy = 1
side_code sell = 2

-- The book takes every other byte for a sell.
abbrev side_from : ℕ → Side
side_from n = if n == 1 then buy else sell

abbrev order_type_code : OrderType → ℕ
order_type_code OrderType.limit = 1
order_type_code OrderType.market = 2
order_type_code OrderType.stop = 3

abbrev order_type_from : ℕ → OrderType
order_type_from n =
    if n == 1 then OrderType.limit else if n == 2 then OrderType.market else OrderType.stop

abbrev tif_code : TimeInForce → ℕ
tif_code TimeInForce.gtc = 1
tif_code TimeInForce.ioc = 2
tif_code TimeInForce.fok = 3
tif_code (TimeInForce.unnamed n) = n

-- The bits of an int32_t.
abbrev conn_word : ℤ → ℕ
conn_word (pos n) = n % u32_mod
conn_word (negsuc n) = (u32_mod - 1) - n % u32_mod

abbrev pub command_size : ℕ
command_size = 72

-- The padding of the structure holds zeroes, and `gap` in the byte ahead of `conn_id`.
unfoldable pub command_bytes : ℕ → OrderCommand → List ℕ
command_bytes gap cmd =
    bytes_of 8 (command_code cmd.type)
    ++ (bytes_of 8 cmd.sequence
        ++ (bytes_of 8 cmd.timestamp
            ++ (bytes_of 8 cmd.client_order_id
                ++ (bytes_of 8 cmd.orig_client_order_id
                    ++ (bytes_of 4 cmd.symbol_id
                        ++ (bytes_of 4 cmd.account_id
                            ++ (bytes_of 8 (to_u64 cmd.price)
                                ++ (bytes_of 8 cmd.qty
                                    ++ (bytes_of 1 (side_code cmd.side)
                                        ++ (bytes_of 1 (order_type_code cmd.order_type)
                                            ++ (bytes_of 1 (tif_code cmd.tif)
                                                ++ (bytes_of 1 gap
                                                    ++ bytes_of 4
                                                        (conn_word cmd.conn_id)))))))))))))

-- The fields that replay reads.
pub record ReplayedCommand : Type 0 where
  pub sequence : ℕ
  pub timestamp : ℕ
  pub client_order_id : ℕ
  pub orig_client_order_id : ℕ
  pub symbol_id : ℕ
  pub account_id : ℕ
  pub price : Price
  pub qty : Quantity
  pub side : Side
  pub order_type : OrderType
  pub tif : TimeInForce

unfoldable pub command_at : List ℕ → ReplayedCommand
command_at bytes =
    let (type, b1) = take_word 8 bytes in
    let (sequence, b2) = take_word 8 b1 in
    let (timestamp, b3) = take_word 8 b2 in
    let (client_order_id, b4) = take_word 8 b3 in
    let (orig_client_order_id, b5) = take_word 8 b4 in
    let (symbol_id, b6) = take_word 4 b5 in
    let (account_id, b7) = take_word 4 b6 in
    let (price, b8) = take_word 8 b7 in
    let (qty, b9) = take_word 8 b8 in
    let (side, b10) = take_word 1 b9 in
    let (order_type, b11) = take_word 1 b10 in
    let (tif, b12) = take_word 1 b11 in
    record {
      sequence = sequence;
      timestamp = timestamp;
      client_order_id = client_order_id;
      orig_client_order_id = orig_client_order_id;
      symbol_id = symbol_id;
      account_id = account_id;
      price = to_i64 price;
      qty = qty;
      side = side_from side;
      order_type = order_type_from order_type;
      tif = time_in_force_of tif;
    }

-- The fields of a command that replay reads.
abbrev pub replayed : OrderCommand → ReplayedCommand
replayed cmd = record {
  sequence = cmd.sequence;
  timestamp = cmd.timestamp;
  client_order_id = cmd.client_order_id;
  orig_client_order_id = cmd.orig_client_order_id;
  symbol_id = cmd.symbol_id;
  account_id = cmd.account_id;
  price = cmd.price;
  qty = cmd.qty;
  side = cmd.side;
  order_type = cmd.order_type;
  tif = cmd.tif;
}

-- The numbers of a command are of the widths that the source gives them.
pub record IsCommand (cmd : OrderCommand) : Type 0 where
  pub sequence : cmd.sequence < u64_mod
  pub timestamp : cmd.timestamp < u64_mod
  pub client_order_id : cmd.client_order_id < u64_mod
  pub orig_client_order_id : cmd.orig_client_order_id < u64_mod
  pub symbol_id : cmd.symbol_id < u32_mod
  pub account_id : cmd.account_id < u32_mod
  pub price : to_i64 (to_u64 cmd.price) ≡ cmd.price
  pub qty : cmd.qty < u64_mod
  pub tif : tif_code cmd.tif < 256
  pub tif_named : time_in_force_of (tif_code cmd.tif) ≡ cmd.tif

to_u64_below : (z : ℤ) → to_u64 z < u64_mod
to_u64_below (pos n) = omega arith
to_u64_below (negsuc n) = omega arith

side_from_code : (s : Side) → side_from (side_code s) ≡ s
side_from_code buy = refl
side_from_code sell = refl

command_code_below : (t : CommandType) → command_code t < u64_mod
command_code_below CommandType.new_order = omega arith
command_code_below CommandType.cancel_order = omega arith
command_code_below CommandType.replace_order = omega arith

side_code_below : (s : Side) → side_code s < 256
side_code_below buy = omega arith
side_code_below sell = omega arith

order_type_code_below : (t : OrderType) → order_type_code t < 256
order_type_code_below OrderType.limit = omega arith
order_type_code_below OrderType.market = omega arith
order_type_code_below OrderType.stop = omega arith

order_type_from_code : (t : OrderType) → order_type_from (order_type_code t) ≡ t
order_type_from_code OrderType.limit = refl
order_type_from_code OrderType.market = refl
order_type_from_code OrderType.stop = refl

-- A command whose numbers fit their fields is read back from its bytes, whatever the padding holds.
pub command_at-command_bytes :
    (gap : ℕ) (cmd : OrderCommand)
    → IsCommand cmd
    → command_at (command_bytes gap cmd) ≡ replayed cmd
unfolding command_at command_bytes
command_at-command_bytes gap cmd v =
    rw
      (
        take_word-bytes_of 8 (command_code cmd.type) _ (command_code_below cmd.type),
        take_word-bytes_of 8 cmd.sequence _ v.sequence,
        take_word-bytes_of 8 cmd.timestamp _ v.timestamp,
        take_word-bytes_of 8 cmd.client_order_id _ v.client_order_id,
        take_word-bytes_of 8 cmd.orig_client_order_id _ v.orig_client_order_id,
        take_word-bytes_of 4 cmd.symbol_id _ v.symbol_id,
        take_word-bytes_of 4 cmd.account_id _ v.account_id,
        take_word-bytes_of 8 (to_u64 cmd.price) _ (to_u64_below cmd.price),
        take_word-bytes_of 8 cmd.qty _ v.qty,
        take_word-bytes_of 1 (side_code cmd.side) _ (side_code_below cmd.side),
        take_word-bytes_of 1 (order_type_code cmd.order_type) _
            (order_type_code_below cmd.order_type),
        take_word-bytes_of 1 (tif_code cmd.tif) _ v.tif,
        v.price,
        side_from_code cmd.side,
        order_type_from_code cmd.order_type,
        v.tif_named,
      )
      refl

pub length-command_bytes :
    (gap : ℕ) (cmd : OrderCommand) → length (command_bytes gap cmd) ≡ command_size
unfolding command_bytes bytes_of
length-command_bytes gap cmd = refl
