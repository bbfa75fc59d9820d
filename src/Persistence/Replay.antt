-- ===== src/Persistence/Replay.antt =====
-- persistence/include/persistence/replay_engine.hpp: the replay of the journal files into a book. A file
-- that is there can be opened.
use flux_trade.Prelude.{
  ℕ, zero, suc, ◌+◌, Bool, true, false, ◌&&◌, Option, none, some, List, leb, ◌==◌, ◌>>=◌,
  if◌then◌else◌, length,
}
use flux_trade.Domain.{Order}
use flux_trade.Book.State.{LimitOrderBook}
use flux_trade.Book.Ops
use flux_trade.Gateway.Commands.{CommandType}
use flux_trade.Persistence.Bytes.{take_word, read_bytes}
use flux_trade.Persistence.CommandBytes.{command_code, command_size, ReplayedCommand, command_at}
use flux_trade.Persistence.Journal.{WalRecordHeader, record_checksum, wal_magic, wal_version}
use flux_trade.Persistence.Disk.{Directory, wal_header_size, record_header_size}

unfoldable pub record_header_at : List ℕ → WalRecordHeader
record_header_at bytes =
    let (sequence, b1) = take_word 8 bytes in
    let (timestamp, b2) = take_word 8 b1 in
    let (message_type, b3) = take_word 2 b2 in
    let (payload_length, b4) = take_word 2 b3 in
    let (checksum, b5) = take_word 4 b4 in
    record {
      sequence = sequence;
      timestamp = timestamp;
      message_type = message_type;
      payload_length = payload_length;
      checksum = checksum;
    }

-- The next record of a file, and what is behind it; `none` where the file ends within it.
unfoldable pub read_record : List ℕ → Option ((WalRecordHeader × List ℕ) × List ℕ)
read_record bytes = do
  (header_bytes, b1) ← read_bytes record_header_size bytes
  let header = record_header_at header_bytes
  (payload, b2) ← read_bytes header.payload_length b1
  some ((header, payload), b2)

-- The order of a command, with the time stamp of its record.
unfoldable pub replayed_order : ReplayedCommand → ℕ → Order
replayed_order cmd timestamp = record {
  order_id = cmd.client_order_id;
  price = cmd.price;
  qty = cmd.qty;
  seq_num = cmd.sequence;
  client_timestamp = cmd.timestamp;
  exchange_timestamp = timestamp;
  client_id = 1;
  account_id = cmd.account_id;
  symbol_id = cmd.symbol_id;
  side = cmd.side;
  type = cmd.order_type;
  tif = cmd.tif;
  flags = 0;
}

abbrev pub apply_command : ℕ → ReplayedCommand → ℕ → LimitOrderBook → Option LimitOrderBook
apply_command code cmd timestamp book =
    if code == command_code CommandType.new_order
    then Ops.insert (replayed_order cmd timestamp) cmd.sequence book
    else if code == command_code CommandType.cancel_order
    then Ops.cancel cmd.orig_client_order_id book >>= (λ r. some r.1)
    else some book

-- A payload of another size than a command's is passed over.
unfoldable pub apply_payload : WalRecordHeader → List ℕ → LimitOrderBook → Option LimitOrderBook
apply_payload header payload book =
    if length payload == command_size
    then apply_command header.message_type (command_at payload) header.timestamp book
    else some book

-- How a replay may end: with what it returns, the book and the sequence number that it has got to; in
-- undefined behaviour; or not within its fuel.
pub data Replayed : Type 0 where
  finished : Bool → LimitOrderBook → ℕ → Replayed
  undefined out_of_fuel : Replayed

-- The loop over the records of a file.
unfoldable pub replay_records : ℕ → List ℕ → LimitOrderBook → ℕ → Replayed
replay_records zero bytes book current_seq = Replayed.out_of_fuel
replay_records (suc fuel) bytes book current_seq = elim (read_record bytes) [
  | none ↦ Replayed.finished true book current_seq
  | some ((header, payload), rest) ↦ elim (record_checksum header payload == header.checksum) [
    | false ↦ Replayed.finished false book current_seq
    | true ↦ elim (leb header.sequence current_seq) [
      | true ↦ replay_records fuel rest book current_seq
      | false ↦ elim (apply_payload header payload book) [
        | none ↦ Replayed.undefined
        | some book' ↦ replay_records fuel rest book' header.sequence
      ]
    ]
  ]
]

-- The magic number and the version at the head of a file.
abbrev pub is_journal : List ℕ → Bool
is_journal header =
    let (magic, b1) = take_word 4 header in
    let (version, b2) = take_word 2 b1 in magic == wal_magic && version == wal_version

-- The fuel of the loop is one round for each byte and one more.
unfoldable pub replay_journal : List ℕ → LimitOrderBook → ℕ → Replayed
replay_journal file book current_seq = elim (read_bytes wal_header_size file) [
  | none ↦ Replayed.finished false book current_seq
  | some (header, records) ↦
      if is_journal header
      then replay_records (suc (length records)) records book current_seq
      else Replayed.finished false book current_seq
]

-- The loop of `recover` over the journal files, from an index on.
unfoldable pub replay_journals : ℕ → ℕ → Directory → LimitOrderBook → ℕ → Replayed
replay_journals zero i directory book current_seq = Replayed.out_of_fuel
replay_journals (suc fuel) i directory book current_seq = elim (directory i) [
  | none ↦ Replayed.finished true book current_seq
  | some file ↦ elim (replay_journal file book current_seq) [
    | Replayed.undefined ↦ Replayed.undefined
    | Replayed.out_of_fuel ↦ Replayed.out_of_fuel
    | Replayed.finished false book' seq' ↦ Replayed.finished false book' seq'
    | Replayed.finished true book' seq' ↦ replay_journals fuel (i + 1) directory book' seq'
  ]
]
