-- ===== src/Persistence/Journal.antt =====
-- persistence/include/persistence/wal_record.hpp and memory_journal.hpp.
use flux_trade.Prelude.{ℕ, Bool, false, List, ◌++◌, ltb, if◌then◌else◌, length}
use flux_trade.Common.Ring.{Ring, push}
use flux_trade.Persistence.Bytes.{bytes_of}
use flux_trade.Persistence.Checksum.{crc32c, complement, initial_crc}

abbrev pub wal_magic : ℕ
wal_magic = 0x58554C46

abbrev pub wal_version : ℕ
wal_version = 1

-- The bytes of a WALHeader, with its flags and its padding.
unfoldable pub wal_header_bytes : ℕ → ℕ → List ℕ
wal_header_bytes start_sequence timestamp =
    bytes_of 4 wal_magic
    ++ (bytes_of 2 wal_version
        ++ (bytes_of 2 0 ++ (bytes_of 8 start_sequence ++ (bytes_of 8 timestamp ++ bytes_of 8 0))))

pub record WalRecordHeader : Type 0 where
  pub sequence : ℕ
  pub timestamp : ℕ
  pub message_type : ℕ
  pub payload_length : ℕ
  pub checksum : ℕ

-- What of the 256 bytes of the payload the header's length covers.
pub record LogEntry : Type 0 where
  pub header : WalRecordHeader
  pub payload : List ℕ

-- The bytes of a header ahead of its checksum.
unfoldable pub checked_bytes : WalRecordHeader → List ℕ
checked_bytes h =
    bytes_of 8 h.sequence
    ++ (bytes_of 8 h.timestamp ++ (bytes_of 2 h.message_type ++ bytes_of 2 h.payload_length))

-- The checksum of a record, as it is written and as it is checked.
unfoldable pub record_checksum : WalRecordHeader → List ℕ → ℕ
record_checksum h payload = crc32c payload (complement (crc32c (checked_bytes h) initial_crc))

abbrev pub max_payload : ℕ
max_payload = 256

unfoldable pub log_entry : ℕ → ℕ → ℕ → List ℕ → LogEntry
log_entry sequence timestamp msg_type payload =
    let header : WalRecordHeader = record {
      sequence = sequence;
      timestamp = timestamp;
      message_type = msg_type;
      payload_length = length payload;
      checksum = 0;
    } in
    record {
      header = record header { checksum = record_checksum header payload };
      payload = payload;
    }

-- MemoryJournal::append.
unfoldable pub append : Ring LogEntry → ℕ → ℕ → ℕ → List ℕ → Bool × Ring LogEntry
append queue sequence timestamp msg_type payload =
    if ltb max_payload (length payload)
    then (false, queue)
    else push (log_entry sequence timestamp msg_type payload) queue
