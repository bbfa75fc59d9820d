-- ===== src/Persistence/Recover.antt =====
-- ReplayEngine::recover of persistence/include/persistence/replay_engine.hpp: the metadata, the snapshot that
-- they name and the journals behind it. The files are arguments, `none` where there is none.
use flux_trade.Prelude.{
  ℕ, ◌<◌, true, false, Option, none, some, List, [], ◌≡◌, refl, ap, sym, ◌∙◌, arith, All, length,
  append-nil, ◌>>=◌,
}
use flux_trade.Prelude.Words.{u32_mod, u64_mod}
use flux_trade.Domain.{LiveOrder}
use flux_trade.Book.Level.{PriceLevelNode}
use flux_trade.Book.State.{LimitOrderBook}
use flux_trade.Persistence.Journal.{LogEntry}
use flux_trade.Persistence.Disk.{Directory}
use flux_trade.Persistence.Replay.{Replayed, replay_journals}
use flux_trade.Persistence.Records.{IsEntry, apply_entries, outcome}
use flux_trade.Persistence.Files.{Holds}
use flux_trade.Persistence.Recovery.{replay-Holds}
use flux_trade.Persistence.Metadata.{MetadataInfo, IsInfo, saved_info, save, load, load-save}
use flux_trade.Persistence.SnapshotWriter.{save_snapshot}
use flux_trade.Persistence.SnapshotReader.{Loaded, load_snapshot}
use flux_trade.Persistence.SnapshotFields.{FitsLevel}
use flux_trade.Persistence.Snapshots.{restore, restored, load-save_snapshot}

-- What follows the reading of the snapshot.
abbrev after_snapshot : ℕ → ℕ → Directory → Loaded → Replayed
after_snapshot fuel start_journal journals (Loaded.finished true book sequence timestamp) =
    replay_journals fuel start_journal journals book sequence
after_snapshot fuel start_journal journals (Loaded.finished false book sequence timestamp) =
    Replayed.finished false book sequence
after_snapshot fuel start_journal journals Loaded.undefined = Replayed.undefined

-- What follows the reading of the metadata.
abbrev after_metadata : ℕ → Directory → Directory → LimitOrderBook → Option MetadataInfo → Replayed
after_metadata fuel snapshots journals book none = replay_journals fuel 1 journals book 0
after_metadata fuel snapshots journals book (some info) =
    elim (snapshots info.latest_snapshot_sequence) [
      | none ↦ replay_journals fuel 1 journals book 0
      | some file ↦
          after_snapshot fuel info.current_journal_index journals (load_snapshot file book 0 0)
    ]

unfoldable pub recover : ℕ → Option (List ℕ) → Directory → Directory → LimitOrderBook → Replayed
recover fuel metadata snapshots journals book =
    after_metadata fuel snapshots journals book (metadata >>= load)

saved_keeps :
    (i : MetadataInfo)
    → ((saved_info i).latest_snapshot_sequence ≡ i.latest_snapshot_sequence)
      × ((saved_info i).current_journal_index ≡ i.current_journal_index)
unfolding saved_info
saved_keeps i = (refl, refl)

with_snapshot :
    (fuel : ℕ) (snapshots journals : Directory) (book : LimitOrderBook) (info : MetadataInfo)
    (file : List ℕ)
    → snapshots info.latest_snapshot_sequence ≡ some file
    → after_metadata fuel snapshots journals book (some info)
      ≡ after_snapshot fuel info.current_journal_index journals (load_snapshot file book 0 0)
with_snapshot fuel snapshots journals book info file h = ground arith

-- Where the member `head_order` that the snapshot's writer reads leads along the orders of a level: from
-- saved metadata that name the saved snapshot of a book and the first journal behind it, recovery
-- gives what the entries of the journals from there on make of the restored book, where the snapshot can
-- be restored, the journal files hold valid entries and the fuel exceeds the number of files.
pub recover_checkpoint :
    (head_order : PriceLevelNode → List LiveOrder) (fuel n gap timestamp : ℕ) (info : MetadataInfo)
    (snapshots journals : Directory) (saved book start : LimitOrderBook) (es : List LogEntry)
    → ((l : PriceLevelNode) → head_order l ≡ l.orders)
    → n < fuel
    → gap < u32_mod
    → timestamp < u64_mod
    → IsInfo info
    → snapshots info.latest_snapshot_sequence
      ≡ some (save_snapshot head_order gap saved info.latest_snapshot_sequence timestamp)
    → length saved.bids < u32_mod
    → length saved.asks < u32_mod
    → All FitsLevel saved.bids
    → All FitsLevel saved.asks
    → restore saved book ≡ some start
    → All IsEntry es
    → Holds n info.current_journal_index journals es
    → recover fuel (some (save info)) snapshots journals book
      ≡ outcome (apply_entries es start info.latest_snapshot_sequence)
unfolding recover
recover_checkpoint head_order fuel n gap timestamp info snapshots journals saved book start es leads
      more g ht v there hb ha vb va restores ve holds =
    let (named, index) = saved_keeps info in
    let file = save_snapshot head_order gap saved info.latest_snapshot_sequence timestamp in
    let metadata : load (save info) ≡ some (saved_info info) =
      ap load (sym (append-nil (save info))) ∙ load-save info [] v in
    ap (after_metadata fuel snapshots journals book) metadata
    ∙ with_snapshot fuel snapshots journals book (saved_info info) file (ap snapshots named ∙ there)
    ∙ ap (λ k. after_snapshot fuel k journals (load_snapshot file book 0 0)) index
    ∙ ap (after_snapshot fuel info.current_journal_index journals) (
        load-save_snapshot head_order gap info.latest_snapshot_sequence timestamp saved book 0 0
          leads g v.latest_snapshot_sequence ht hb ha vb va
        ∙ ap (restored info.latest_snapshot_sequence timestamp) restores)
    ∙ replay-Holds n fuel info.current_journal_index journals es start info.latest_snapshot_sequence
        more ve holds
