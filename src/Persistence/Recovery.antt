-- ===== src/Persistence/Recovery.antt =====
-- What a replay makes of the files that the disk journal has written.
use flux_trade.Prelude.{
  ℕ, zero, suc, ◌+◌, ◌<◌, ◌≤◌, true, Option, none, some, List, [], ◌∷◌, ◌++◌, ◌≡◌, refl, ap, sym,
  ◌∙◌, subst, arith, All, leb, length, length-append, Bool-cases, inl, inr,
}
use flux_trade.Book.State.{LimitOrderBook}
use flux_trade.Persistence.Bytes.{read_bytes, bytes_of, read_bytes-append, take_word-bytes_of}
use flux_trade.Persistence.Journal.{
  LogEntry, wal_header_bytes, checked_bytes, wal_magic, wal_version,
}
use flux_trade.Persistence.Disk.{Directory, wal_header_size, record_bytes}
use flux_trade.Persistence.Replay.{
  Replayed, is_journal, apply_payload, replay_journal, replay_journals, replay_records,
}
use flux_trade.Persistence.Records.{
  IsEntry, all_records, apply_entries, apply_rest, apply_entries_old, apply_entries_new, outcome,
  replay_records-all_records,
}
use flux_trade.Persistence.Files.{Holds}

length-wal_header_bytes : (start now : ℕ) → length (wal_header_bytes start now) ≡ wal_header_size
unfolding wal_header_bytes bytes_of
length-wal_header_bytes start now = refl

length-le-all_records : (es : List LogEntry) → length es ≤ length (all_records es)
unfolding checked_bytes bytes_of
length-le-all_records [] = omega arith
length-le-all_records (e ∷ es) =
    omega (arith, length-le-all_records es, length-append (record_bytes e) (all_records es))

wal_header-is_journal : (start now : ℕ) → is_journal (wal_header_bytes start now) ≡ true
unfolding wal_header_bytes
wal_header-is_journal start now =
    rw
      (
        take_word-bytes_of 4 wal_magic _ (omega arith),
        take_word-bytes_of 2 wal_version _ (omega arith),
      )
      refl

replay_read :
    (file header records : List ℕ) (book : LimitOrderBook) (seq : ℕ)
    → read_bytes wal_header_size file ≡ some (header, records)
    → is_journal header ≡ true
    → replay_journal file book seq ≡ replay_records (suc (length records)) records book seq
unfolding replay_journal
replay_read file header records book seq read ok = ground arith

-- A journal file whose head is as it is written is replayed by its entries.
replay_file :
    (start now : ℕ) (es : List LogEntry) (book : LimitOrderBook) (seq : ℕ)
    → All IsEntry es
    → replay_journal (wal_header_bytes start now ++ all_records es) book seq
      ≡ outcome (apply_entries es book seq)
replay_file start now es book seq v =
    replay_read (wal_header_bytes start now ++ all_records es) (wal_header_bytes start now)
      (all_records es) book seq
      (read_bytes-append wal_header_size (wal_header_bytes start now) (all_records es)
        (length-wal_header_bytes start now))
      (wal_header-is_journal start now)
    ∙ replay_records-all_records (suc (length (all_records es))) es book seq
        (omega (arith, length-le-all_records es)) v

abbrev apply_all : List LogEntry → Option (LimitOrderBook × ℕ) → Option (LimitOrderBook × ℕ)
apply_all es none = none
apply_all es (some (book, seq)) = apply_entries es book seq

apply_rest-append :
    (es fs : List LogEntry) (seq : ℕ) (p : Option LimitOrderBook)
    → ((book : LimitOrderBook)
        → apply_entries (es ++ fs) book seq ≡ apply_all fs (apply_entries es book seq))
    → apply_rest (es ++ fs) seq p ≡ apply_all fs (apply_rest es seq p)
apply_rest-append es fs seq none h = refl
apply_rest-append es fs seq (some book) h = h book

apply_entries-append :
    (es fs : List LogEntry) (book : LimitOrderBook) (seq : ℕ)
    → apply_entries (es ++ fs) book seq ≡ apply_all fs (apply_entries es book seq)
apply_entries-append [] fs book seq = refl
apply_entries-append (e ∷ es) fs book seq = elim (Bool-cases (leb e.header.sequence seq)) [
  | inl old ↦
      apply_entries_old e (es ++ fs) book seq old
      ∙ apply_entries-append es fs book seq
      ∙ ap (apply_all fs) (sym (apply_entries_old e es book seq old))
  | inr new ↦
      apply_entries_new e (es ++ fs) book seq new
      ∙ apply_rest-append es fs e.header.sequence (apply_payload e.header e.payload book)
          (λ book'. apply_entries-append es fs book' e.header.sequence)
      ∙ ap (apply_all fs) (sym (apply_entries_new e es book seq new))
]

All-split {ℓ κ} :
    {A : Type ℓ} (P : A → Type κ) (xs ys : List A) → All P (xs ++ ys) → All P xs × All P ys
All-split P [] ys h = (tt, h)
All-split P (x ∷ xs) ys h = let (left, right) = All-split P xs ys h.1 in ((h.0, left), right)

-- The rounds of the loop over the files, by what a file replays to.
replay_more :
    (fuel i : ℕ) (dir : Directory) (file : List ℕ) (book : LimitOrderBook) (seq : ℕ)
    (r : Option (LimitOrderBook × ℕ))
    → dir i ≡ some file
    → replay_journal file book seq ≡ outcome r
    → replay_journals (suc fuel) i dir book seq ≡ elim r [
      | none ↦ Replayed.undefined
      | some (book', seq') ↦ replay_journals fuel (i + 1) dir book' seq'
    ]
unfolding replay_journals
replay_more fuel i dir file book seq none there e = ground arith
replay_more fuel i dir file book seq (some (book', seq')) there e = ground arith

replay_stops :
    (fuel i : ℕ) (dir : Directory) (book : LimitOrderBook) (seq : ℕ)
    → dir i ≡ none
    → replay_journals (suc fuel) i dir book seq ≡ Replayed.finished true book seq
unfolding replay_journals
replay_stops fuel i dir book seq e = ground arith

replay_onward :
    (fuel i : ℕ) (dir : Directory) (es : List LogEntry) (r : Option (LimitOrderBook × ℕ))
    → ((book : LimitOrderBook) (seq : ℕ)
        → replay_journals fuel i dir book seq ≡ outcome (apply_entries es book seq))
    → elim r [
      | none ↦ Replayed.undefined
      | some (book', seq') ↦ replay_journals fuel i dir book' seq'
    ]
      ≡ outcome (apply_all es r)
replay_onward fuel i dir es none h = refl
replay_onward fuel i dir es (some (book, seq)) h = h book seq

-- Files that hold entries are replayed by those entries.
pub replay-Holds :
    (n fuel i : ℕ) (dir : Directory) (es : List LogEntry) (book : LimitOrderBook) (seq : ℕ)
    → n < fuel
    → All IsEntry es
    → Holds n i dir es
    → replay_journals fuel i dir book seq ≡ outcome (apply_entries es book seq)
replay-Holds n zero i dir es book seq h v holds = absurd (omega arith)
replay-Holds zero (suc fuel) i dir es book seq h v (nothing, e) =
    replay_stops fuel i dir book seq nothing
    ∙ ap (λ xs. outcome (apply_entries xs book seq)) (sym e)
replay-Holds (suc n) (suc fuel) i dir es book seq h v
      (first, rest, bytes, there, (start, now, file), split, holds) =
    let (vf, vr) = All-split IsEntry first rest (subst (All IsEntry) split v) in
    let next : i + 1 ≡ suc i = omega arith in
    replay_more fuel i dir bytes book seq (apply_entries first book seq) there
      (ap (λ f. replay_journal f book seq) file ∙ replay_file start now first book seq vf)
    ∙ replay_onward fuel (i + 1) dir rest (apply_entries first book seq) (λ book' seq'.
      ap (λ k. replay_journals fuel k dir book' seq') next
      ∙ replay-Holds n fuel (suc i) dir rest book' seq' (omega arith) vr holds)
    ∙ ap outcome (
        sym (apply_entries-append first rest book seq)
        ∙ ap (λ xs. apply_entries xs book seq) (sym split))
