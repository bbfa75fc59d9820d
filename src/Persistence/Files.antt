-- ===== src/Persistence/Files.antt =====
-- The files that the disk journal writes hold the entries that it is given.
use flux_trade.Prelude.{
  ℕ, zero, suc, ◌+◌, ◌-◌, ◌<◌, ◌≤◌, true, not, ◌||◌, none, some, List, [], ◌∷◌, ◌++◌, ◌≡◌, refl, ap,
  sym, ◌∙◌, subst, arith, leb, append_assoc, Bool-cases, inl, inr, append-nil,
}
use flux_trade.Prelude.Words.{u64_mod, add64}
use flux_trade.Common.Table.{put, put_same, put_other}
use flux_trade.Persistence.Journal.{LogEntry, wal_header_bytes}
use flux_trade.Persistence.Disk.{
  Directory, DiskJournal, rotate_file, write, write_entry, open_file, record_bytes, file_bytes,
}
use flux_trade.Persistence.Records.{all_records, all_records-append}
use flux_trade.Persistence.Stream.{
  file_bytes-of_some, flushed_files, flushed-write, flushed-rotate_file,
}

-- The bytes of a journal file that holds these entries.
abbrev pub IsFile : List LogEntry → List ℕ → Type 0
IsFile es bytes = (start : ℕ) × (now : ℕ) × (bytes ≡ wal_header_bytes start now ++ all_records es)

-- The directory's files from index i on are n journal files that hold these entries in turn, and no file
-- follows.
abbrev pub Holds : ℕ → ℕ → Directory → List LogEntry → Type 0
Holds zero i dir es = (dir i ≡ none) × (es ≡ [])
Holds (suc n) i dir es =
    (first : List LogEntry) × (rest : List LogEntry) × (bytes : List ℕ) × (dir i ≡ some bytes)
    × IsFile first bytes
    × (es ≡ first ++ rest)
    × Holds n (suc i) dir rest

all_records_snoc :
    (es : List LogEntry) (e : LogEntry)
    → all_records (es ++ e ∷ []) ≡ all_records es ++ record_bytes e
all_records_snoc es e =
    all_records-append es (e ∷ []) ∙ ap (λ bs. all_records es ++ bs) (append-nil (record_bytes e))

-- An entry that is written to the last file.
Holds-written :
    (n i j : ℕ) (e : LogEntry) (dir : Directory) (es : List LogEntry)
    → j ≡ i + n
    → Holds (suc n) i dir es
    → Holds (suc n) i (put j (some (file_bytes j dir ++ record_bytes e)) dir) (es ++ e ∷ [])
Holds-written zero i j e dir es p (first, rest, bytes, there, (start, now, file), split, holds) =
    let same : i ≡ j = omega (arith, p) in
    let here : file_bytes j dir ≡ bytes =
      file_bytes-of_some j dir bytes (ap dir (sym same) ∙ there) in
    (
      first ++ e ∷ [],
      [],
      bytes ++ record_bytes e,
      ap (put j (some (file_bytes j dir ++ record_bytes e)) dir) same
          ∙ put_same j _ dir
          ∙ ap (λ bs. some (bs ++ record_bytes e)) here,
      (
        start,
        now,
        ap (λ bs. bs ++ record_bytes e) file
            ∙ append_assoc (wal_header_bytes start now) (all_records first) (record_bytes e)
            ∙ ap (λ bs. wal_header_bytes start now ++ bs) (sym (all_records_snoc first e)),
      ),
      ap (λ xs. xs ++ e ∷ []) (split ∙ ap (λ r. first ++ r) holds.1 ∙ append-nil first)
          ∙ sym (append-nil (first ++ e ∷ [])),
      (put_other j _ dir (suc i) (λ q. absurd (omega (arith, p, q))) ∙ holds.0, refl),
    )
Holds-written (suc n) i j e dir es p (first, rest, bytes, there, file, split, holds) = (
  first,
  rest ++ e ∷ [],
  bytes,
  put_other j _ dir i (λ q. absurd (omega (arith, p, q))) ∙ there,
  file,
  ap (λ xs. xs ++ e ∷ []) split ∙ append_assoc first rest (e ∷ []),
  Holds-written n (suc i) j e dir rest (omega (arith, p)) holds,
)

-- A file that is begun behind the last one.
Holds-rotated :
    (n i j start now : ℕ) (dir : Directory) (es : List LogEntry)
    → j ≡ i + n
    → dir (suc j) ≡ none
    → Holds n i dir es
    → Holds (suc n) i (put j (some (wal_header_bytes start now)) dir) es
Holds-rotated zero i j start now dir es p beyond (none_there, e) =
    let same : i ≡ j = omega (arith, p) in
    (
      [],
      [],
      wal_header_bytes start now,
      ap (put j (some (wal_header_bytes start now)) dir) same ∙ put_same j _ dir,
      (start, now, sym (append-nil (wal_header_bytes start now))),
      e,
      (
        put_other j _ dir (suc i) (λ q. absurd (omega (arith, p, q)))
            ∙ ap (λ k. dir (suc k)) same
            ∙ beyond,
        refl,
      ),
    )
Holds-rotated (suc n) i j start now dir es p beyond
      (first, rest, bytes, there, file, split, holds) =
    (
      first,
      rest,
      bytes,
      put_other j _ dir i (λ q. absurd (omega (arith, p, q))) ∙ there,
      file,
      split,
      Holds-rotated n (suc i) j start now dir rest (omega (arith, p)) beyond holds,
    )

-- The journal's files hold these entries, once what is pending has been handed on, and the last of them is
-- the one that is written.
pub record IsLogged (j : DiskJournal) (es : List LogEntry) : Type 0 where
  pub holds : Holds j.file_index 1 (flushed_files j) es
  pub beyond : (k : ℕ) → j.file_index < k → flushed_files j k ≡ none
  pub opened : j.is_open ≡ true → 0 < j.file_index

rotate_file-opens :
    (now sequence : ℕ) (j : DiskJournal)
    → ((rotate_file now sequence j).is_open ≡ true)
      × ((rotate_file now sequence j).file_index ≡ add64 j.file_index 1)
unfolding rotate_file write open_file
rotate_file-opens now sequence j = (refl, refl)

rotate_file-IsLogged :
    (now sequence : ℕ) (j : DiskJournal) (es : List LogEntry)
    → suc j.file_index < u64_mod
    → IsLogged j es
    → IsLogged (rotate_file now sequence j) es
      × ((rotate_file now sequence j).is_open ≡ true)
      × ((rotate_file now sequence j).file_index ≡ suc j.file_index)
rotate_file-IsLogged now sequence j es h v =
    let (now_open, indexed) = rotate_file-opens now sequence j in
    let next : (rotate_file now sequence j).file_index ≡ suc j.file_index =
      indexed ∙ omega (arith, h) in
    let header = wal_header_bytes sequence now in
    let files =
      flushed-rotate_file now sequence j
      ∙ ap (λ i. put i (some header) (flushed_files j)) (sym indexed ∙ next) in
    (
      record {
        holds =
            subst (λ i. Holds i 1 (flushed_files (rotate_file now sequence j)) es) (sym next)
              (subst (λ f. Holds (suc j.file_index) 1 f es) (sym files)
                (Holds-rotated j.file_index 1 (suc j.file_index) sequence now (flushed_files j) es
                  (omega arith) (v.beyond (suc (suc j.file_index)) (omega arith)) v.holds));
        beyond = λ k less.
            ap (λ f. f k) files
            ∙ put_other _ _ (flushed_files j) k (λ q. absurd (omega (arith, q, less, next)))
            ∙ v.beyond k (omega (arith, less, next));
        opened = λ p. omega (arith, next);
      },
      now_open,
      next,
    )

write-IsLogged :
    (n : ℕ) (e : LogEntry) (j : DiskJournal) (bytes : ℕ) (es : List LogEntry)
    → j.is_open ≡ true
    → j.file_index ≡ suc n
    → IsLogged j es
    → IsLogged (record (write (record_bytes e) j) { current_bytes = bytes }) (es ++ e ∷ [])
unfolding write flushed_files
write-IsLogged n e j bytes es yet p v =
    let files = flushed-write (record_bytes e) j yet in
    record {
      holds =
          subst (λ k. Holds k 1 (flushed_files (write (record_bytes e) j)) (es ++ e ∷ [])) (sym p)
            (subst (λ f. Holds (suc n) 1 f (es ++ e ∷ [])) (sym files)
              (Holds-written n 1 j.file_index e (flushed_files j) es (omega (arith, p))
                (subst (λ k. Holds k 1 (flushed_files j) es) p v.holds)));
      beyond = λ k less.
          ap (λ f. f k) files
          ∙ put_other _ _ (flushed_files j) k (λ q. absurd (omega (arith, q, less)))
          ∙ v.beyond k less;
      opened = v.opened;
    }

pub write_entry-IsLogged :
    (now : ℕ) (e : LogEntry) (j : DiskJournal) (es : List LogEntry)
    → suc j.file_index < u64_mod
    → IsLogged j es
    → IsLogged (write_entry now e j) (es ++ e ∷ [])
      × ((write_entry now e j).file_index ≤ suc j.file_index)
unfolding write_entry write
write_entry-IsLogged now e j es h v =
    elim (Bool-cases (not j.is_open || leb j.max_file_size j.current_bytes)) [
      | inl rotates ↦
          let (v', now_open, next) = rotate_file-IsLogged now e.header.sequence j es h v in
          rw rotates (
            write-IsLogged j.file_index e (rotate_file now e.header.sequence j) _ es now_open next
                v',
            omega (arith, next),
          )
      | inr stays ↦
          let is_open : j.is_open ≡ true = ground arith in
          let some_file : 0 < j.file_index = v.opened is_open in
          rw stays (write-IsLogged (j.file_index - 1) e j _ es is_open (omega arith) v, omega arith)
    ]
