-- ===== src/Persistence/SnapshotReader.antt =====
-- persistence/include/persistence/snapshot_reader.hpp: a snapshot read into a book.
use flux_trade.Prelude.{ℕ, zero, suc, Bool, false, ◌&&◌, ◌==◌, none, some, List, if◌then◌else◌}
use flux_trade.Prelude.Words.{to_i64}
use flux_trade.Domain.{Side, buy, sell, OrderType, TimeInForce, Price, Quantity, Order}
use flux_trade.Book.State.{LimitOrderBook}
use flux_trade.Book.Ops
use flux_trade.Persistence.Bytes.{take_word, read_bytes}
use flux_trade.Persistence.Checksum.{complement}
use flux_trade.Persistence.SnapshotWriter.{snapshot_magic, snapshot_version, chain_crc, initial}

pub record SnapshotHeader : Type 0 where
  pub magic : ℕ
  pub version : ℕ
  pub sequence : ℕ
  pub timestamp : ℕ
  pub bid_level_count : ℕ
  pub ask_level_count : ℕ
  pub checksum : ℕ

unfoldable pub snapshot_header_at : List ℕ → SnapshotHeader
snapshot_header_at bytes =
    let (magic, b1) = take_word 4 bytes in
    let (version, b2) = take_word 2 b1 in
    let (flags, b3) = take_word 2 b2 in
    let (sequence, b4) = take_word 8 b3 in
    let (timestamp, b5) = take_word 8 b4 in
    let (bid_level_count, b6) = take_word 4 b5 in
    let (ask_level_count, b7) = take_word 4 b6 in
    let (checksum, b8) = take_word 4 b7 in
    record {
      magic = magic;
      version = version;
      sequence = sequence;
      timestamp = timestamp;
      bid_level_count = bid_level_count;
      ask_level_count = ask_level_count;
      checksum = checksum;
    }

-- The price and the count of orders of a level.
unfoldable pub level_snapshot_at : List ℕ → Price × ℕ
level_snapshot_at bytes =
    let (price, b1) = take_word 8 bytes in
    let (total_qty, b2) = take_word 8 b1 in
    let (order_count, b3) = take_word 4 b2 in (to_i64 price, order_count)

pub record OrderSnapshot : Type 0 where
  pub symbol_id : ℕ
  pub order_id : ℕ
  pub remaining_qty : Quantity
  pub priority_seq : ℕ

unfoldable pub order_snapshot_at : List ℕ → OrderSnapshot
order_snapshot_at bytes =
    let (symbol_id, b1) = take_word 4 bytes in
    let (gap, b2) = take_word 4 b1 in
    let (order_id, b3) = take_word 8 b2 in
    let (remaining_qty, b4) = take_word 8 b3 in
    let (priority_seq, b5) = take_word 8 b4 in
    record {
      symbol_id = symbol_id;
      order_id = order_id;
      remaining_qty = remaining_qty;
      priority_seq = priority_seq;
    }

-- The order that stands in for the one that was saved.
unfoldable pub dummy : Side → Price → OrderSnapshot → Order
dummy side price o = record {
  order_id = o.order_id;
  price = price;
  qty = o.remaining_qty;
  seq_num = 0;
  client_timestamp = 0;
  exchange_timestamp = 0;
  client_id = 0;
  account_id = 0;
  symbol_id = o.symbol_id;
  side = side;
  type = OrderType.limit;
  tif = TimeInForce.gtc;
  flags = 0;
}

-- The sizes of the three structures.
abbrev pub snapshot_header_size : ℕ
snapshot_header_size = 40

abbrev pub level_snapshot_size : ℕ
level_snapshot_size = 24

abbrev pub order_snapshot_size : ℕ
order_snapshot_size = 32

-- How a part of the file may be read: to the bytes behind it, with the checksum and the book so far; to a
-- file that ends early, with the book so far; or to undefined behaviour.
pub data Read : Type 0 where
  went : List ℕ → ℕ → LimitOrderBook → Read
  broke : LimitOrderBook → Read
  undefined : Read

abbrev pub and_then : Read → (List ℕ → ℕ → LimitOrderBook → Read) → Read
and_then (Read.went bytes crc book) f = f bytes crc book
and_then (Read.broke book) f = Read.broke book
and_then Read.undefined f = Read.undefined

-- The loop over the orders of a level.
unfoldable pub read_orders : ℕ → Side → Price → List ℕ → ℕ → LimitOrderBook → Read
read_orders zero side price bytes crc book = Read.went bytes crc book
read_orders (suc n) side price bytes crc book = elim (read_bytes order_snapshot_size bytes) [
  | none ↦ Read.broke book
  | some (piece, rest) ↦
      let o = order_snapshot_at piece in
      elim (Ops.insert (dummy side price o) o.priority_seq book) [
        | none ↦ Read.undefined
        | some book' ↦ read_orders n side price rest (chain_crc piece crc) book'
      ]
]

unfoldable pub read_levels : ℕ → Side → List ℕ → ℕ → LimitOrderBook → Read
read_levels zero side bytes crc book = Read.went bytes crc book
read_levels (suc n) side bytes crc book = elim (read_bytes level_snapshot_size bytes) [
  | none ↦ Read.broke book
  | some (piece, rest) ↦
      let (price, order_count) = level_snapshot_at piece in
      and_then (read_orders order_count side price rest (chain_crc piece crc) book)
        (λ bytes' crc' book'. read_levels n side bytes' crc' book')
]

-- How `load` may end: with what it returns, the book, the sequence number and the time stamp; or in
-- undefined behaviour.
pub data Loaded : Type 0 where
  finished : Bool → LimitOrderBook → ℕ → ℕ → Loaded
  undefined : Loaded

abbrev pub checked : ℕ → ℕ → ℕ → Read → Loaded
checked expected sequence timestamp (Read.went bytes crc book) =
    Loaded.finished (expected == complement crc) book sequence timestamp
checked expected sequence timestamp (Read.broke book) =
    Loaded.finished false book sequence timestamp
checked expected sequence timestamp Read.undefined = Loaded.undefined

-- Both sides behind a header.
abbrev pub load_sides : SnapshotHeader → List ℕ → LimitOrderBook → Loaded
load_sides header bytes book = checked header.checksum header.sequence header.timestamp (
    and_then (read_levels header.bid_level_count buy bytes initial (Ops.clear book))
      (λ bytes' crc' book'. read_levels header.ask_level_count sell bytes' crc' book'))

-- `load`, with the book and the two outputs as they are before.
unfoldable pub load_snapshot : List ℕ → LimitOrderBook → ℕ → ℕ → Loaded
load_snapshot file book sequence timestamp = elim (read_bytes snapshot_header_size file) [
  | none ↦ Loaded.finished false book sequence timestamp
  | some (bytes, rest) ↦
      let header = snapshot_header_at bytes in
      if header.magic == snapshot_magic && header.version == snapshot_version
      then load_sides header rest book
      else Loaded.finished false book sequence timestamp
]
