-- ===== src/Persistence/Disk.antt =====
-- persistence/include/persistence/disk_journal.hpp. A directory gives the bytes of each journal file by its
-- index, those that its reader sees; opening a file succeeds. What has been written to the stream and not
-- yet handed on is `pending`. The readings of the clocks are arguments.
use flux_trade.Prelude.{
  ℕ, zero, suc, ◌+◌, Bool, true, false, not, ◌&&◌, ◌||◌, Option, none, some, List, [], ◌++◌, leb,
  if◌then◌else◌, take, drop,
}
use flux_trade.Prelude.Words.{add64, sub64}
use flux_trade.Common.Table.{put}
use flux_trade.Common.Ring.{Ring, pop}
use flux_trade.Persistence.Bytes.{bytes_of}
use flux_trade.Persistence.Journal.{LogEntry, checked_bytes, wal_header_bytes}

pub data FlushPolicy : Type 0 where
  never interval batch immediate : FlushPolicy

abbrev pub Directory : Type 0
Directory = ℕ → Option (List ℕ)

-- `pending` holds the bytes in the buffer of the open stream. Of its own accord the stream hands on the
-- first `spill pending` of them when it is written to: any function may stand there.
pub record DiskJournal : Type 0 where
  pub directory : Directory
  pub policy : FlushPolicy
  pub max_file_size : ℕ
  pub is_open : Bool
  pub current_bytes : ℕ
  pub file_index : ℕ
  pub pending : List ℕ
  pub spill : List ℕ → ℕ

abbrev pub new_journal : (List ℕ → ℕ) → Directory → FlushPolicy → ℕ → DiskJournal
new_journal spill directory policy max_file_size = record {
  directory = directory;
  policy = policy;
  max_file_size = max_file_size;
  is_open = false;
  current_bytes = 0;
  file_index = 0;
  pending = [];
  spill = spill;
}

abbrev pub wal_header_size : ℕ
wal_header_size = 32

abbrev pub record_header_size : ℕ
record_header_size = 24

abbrev pub file_bytes : ℕ → Directory → List ℕ
file_bytes i directory = elim (directory i) [ none ↦ [] | some bytes ↦ bytes ]

-- These bytes at the end of the file that is written.
abbrev pub extend : List ℕ → DiskJournal → Directory
extend bytes j = put j.file_index (some (file_bytes j.file_index j.directory ++ bytes)) j.directory

-- current_file_.write.
unfoldable pub write : List ℕ → DiskJournal → DiskJournal
write bytes j =
    let pending = j.pending ++ bytes in
    let n = j.spill pending in
    record j { directory = extend (take n pending) j; pending = drop n pending }

-- current_file_.flush.
unfoldable pub hand_on : DiskJournal → DiskJournal
hand_on j = record j { directory = extend j.pending j; pending = [] }

-- The flush and the close of the file, if one is open.
unfoldable pub close_file : DiskJournal → DiskJournal
close_file j = if j.is_open then record (hand_on j) { is_open = false } else j

-- current_file_.open. A file is truncated, whatever it held.
unfoldable pub open_file : ℕ → DiskJournal → DiskJournal
open_file index j = record j {
  directory = put index (some []) j.directory;
  is_open = true;
  file_index = index;
  pending = [];
}

unfoldable pub rotate_file : ℕ → ℕ → DiskJournal → DiskJournal
rotate_file now sequence j =
    record (write (wal_header_bytes sequence now)
      (open_file (add64 j.file_index 1) (close_file j))) { current_bytes = wal_header_size }

abbrev pub record_bytes : LogEntry → List ℕ
record_bytes entry =
    (checked_bytes entry.header ++ bytes_of 4 entry.header.checksum) ++ entry.payload

unfoldable pub write_entry : ℕ → LogEntry → DiskJournal → DiskJournal
write_entry now entry j =
    let j' =
      if not j.is_open || leb j.max_file_size j.current_bytes
      then rotate_file now entry.header.sequence j
      else j in
    record (write (record_bytes entry) j') {
      current_bytes = add64 j'.current_bytes (record_header_size + entry.header.payload_length);
    }

abbrev pub is_never : FlushPolicy → Bool
is_never FlushPolicy.never = true
is_never FlushPolicy.interval = false
is_never FlushPolicy.batch = false
is_never FlushPolicy.immediate = false

unfoldable pub flush : DiskJournal → DiskJournal
flush j = if j.is_open && not (is_never j.policy) then hand_on j else j

-- The locals of `run`, with the queue that it reads.
pub record Writer : Type 0 where
  pub queue : Ring LogEntry
  pub journal : DiskJournal
  pub batch_count : ℕ
  pub last_flush : ℕ

abbrev pub batch_size : ℕ
batch_size = 1000

abbrev pub flush_interval_ns : ℕ
flush_interval_ns = 10000000

-- What follows a write, by the policy.
abbrev pub flush_written : FlushPolicy → Writer → Writer
flush_written FlushPolicy.immediate w = record w { journal = flush w.journal }
flush_written FlushPolicy.batch w =
    if leb batch_size w.batch_count
    then record w { journal = flush w.journal; batch_count = 0 }
    else w
flush_written FlushPolicy.never w = w
flush_written FlushPolicy.interval w = w

abbrev pub flush_idle : FlushPolicy → ℕ → Writer → Writer
flush_idle FlushPolicy.interval steady w =
    if leb flush_interval_ns (sub64 steady w.last_flush)
    then record w { journal = flush w.journal; last_flush = steady }
    else w
flush_idle FlushPolicy.immediate steady w = w
flush_idle FlushPolicy.batch steady w = w
flush_idle FlushPolicy.never steady w = w

-- The body of the loop of `run`.
unfoldable pub run_round : ℕ → ℕ → Writer → Writer
run_round now steady w = elim (pop w.queue) [
  | none ↦ flush_idle w.journal.policy steady w
  | some (entry, queue') ↦ flush_written w.journal.policy (record w {
    queue = queue';
    journal = write_entry now entry w.journal;
    batch_count = add64 w.batch_count 1;
  })
]

-- Rounds of the loop, with the readings of both clocks by the number of rounds that are left.
abbrev pub run_rounds : (ℕ → ℕ) → (ℕ → ℕ) → ℕ → Writer → Writer
run_rounds now steady zero w = w
run_rounds now steady (suc n) w = run_rounds now steady n (run_round (now n) (steady n) w)

-- `run`, with the flush at its end, once the loop has made these rounds.
unfoldable pub run : (ℕ → ℕ) → (ℕ → ℕ) → ℕ → Writer → Writer
run now steady n w =
    let done = run_rounds now steady n w in record done { journal = flush done.journal }

-- `stop`, where the thread has made these rounds when it is joined.
unfoldable pub stop : (ℕ → ℕ) → (ℕ → ℕ) → ℕ → Writer → Writer
stop now steady n w =
    let done = run now steady n w in record done { journal = close_file done.journal }
