-- ===== src/Persistence/SnapshotTests.antt =====
-- The snapshot's properties at small books.
use flux_trade.Prelude.{List, [], ◌∷◌, ◌++◌, none, some, ◌≡◌, refl, arith, All, ◌==◌, if◌then◌else◌}
use flux_trade.Domain.{LiveOrder}
use flux_trade.Book.Level.{PriceLevelNode}
use flux_trade.Book.State.{LimitOrderBook, create_level}
use flux_trade.Book.Levels.{find_level}
use flux_trade.Common.ObjectPool.{allocate}
use flux_trade.Book.Ops
use flux_trade.Book.Samples.{small_book, near_bids}
use flux_trade.Gateway.Commands.{CommandType, OrderCommand, blank_command}
use flux_trade.Persistence.CommandBytes.{command_bytes, length-command_bytes}
use flux_trade.Persistence.Journal.{LogEntry, log_entry, wal_header_bytes}
use flux_trade.Persistence.Files.{Holds}
use flux_trade.Persistence.Disk.{Directory}
use flux_trade.Persistence.Records.{IsEntry, log_entry-IsEntry, all_records, apply_entries, outcome}
use flux_trade.Persistence.Metadata.{MetadataInfo, save}
use flux_trade.Persistence.SnapshotWriter.{save_snapshot}
use flux_trade.Persistence.SnapshotReader.{dummy}
use flux_trade.Persistence.SnapshotFields.{FitsLevel}
use flux_trade.Persistence.Snapshots.{restore}
use flux_trade.Persistence.Recover.{recover, recover_checkpoint}

abbrev own_list : PriceLevelNode → List LiveOrder
own_list l = l.orders

bids_fit : All FitsLevel (near_bids ∷ [])
bids_fit = (
  (refl, omega arith, omega arith, ((omega arith, omega arith, omega arith, omega arith), tt)),
  tt,
)

-- A checkpoint of a book with one bid, and no journal behind it.
abbrev one_bid : LimitOrderBook
one_bid = record small_book { asks = [] }

abbrev target : LimitOrderBook
target = record small_book { bids = []; asks = []; lookup = [] }

abbrev restored_book : LimitOrderBook
restored_book = elim (restore one_bid target) [ none ↦ target | some b ↦ b ]

restores : restore one_bid target ≡ some restored_book
unfolding Ops.insert allocate Ops.clear Ops.clear_levels Ops.find_or_create find_level dummy
    create_level
restores = refl

abbrev info : MetadataInfo
info = record {
  magic = 0;
  version = 0;
  flags = 0;
  latest_snapshot_sequence = 40;
  last_journal_sequence = 40;
  current_journal_index = 3;
  checksum = 0;
  padding = 0;
}

abbrev snapshots : Directory
snapshots i = if i == 40 then some (save_snapshot own_list 9 one_bid 40 1000) else none

-- The cancellation of the bid, which was journalled behind the checkpoint.
abbrev withdrawal : OrderCommand
withdrawal = record blank_command {
  type = CommandType.cancel_order;
  sequence = 41;
  orig_client_order_id = 14;
}

abbrev entries : List LogEntry
entries = log_entry 41 1001 1 (command_bytes 9 withdrawal) ∷ []

entries-IsEntry : All IsEntry entries
entries-IsEntry = (
  log_entry-IsEntry 41 1001 1 (command_bytes 9 withdrawal) (omega arith) (omega arith) (omega arith)
      (omega (arith, length-command_bytes 9 withdrawal)),
  tt,
)

abbrev journals : Directory
journals i = if i == 3 then some (wal_header_bytes 41 5 ++ all_records entries) else none

journals-Holds : Holds 1 3 journals entries
journals-Holds = (
  entries,
  [],
  wal_header_bytes 41 5 ++ all_records entries,
  refl,
  (41, 5, refl),
  refl,
  (refl, refl),
)

recover_checkpoint_example :
    recover 2 (some (save info)) snapshots journals target
    ≡ outcome (apply_entries entries restored_book 40)
recover_checkpoint_example =
    recover_checkpoint own_list 2 1 9 1000 info snapshots journals one_bid target restored_book
      entries (λ l. refl) (omega arith) (omega arith) (omega arith) (omega arith) refl (omega arith)
      (omega arith) bids_fit tt restores entries-IsEntry journals-Holds
