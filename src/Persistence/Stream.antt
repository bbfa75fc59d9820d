-- ===== src/Persistence/Stream.antt =====
-- The bytes that the disk journal's stream has taken, whether or not it has handed them on.
use flux_trade.Prelude.{
  ℕ, true, some, List, [], ◌++◌, ◌≡◌, refl, ap, ap₂, sym, ◌∙◌, arith, append_assoc, Bool-cases, inl,
  inr, append-nil, Option, take, drop, take-drop, if◌then◌else◌,
}
use flux_trade.Prelude.Words.{add64}
use flux_trade.Common.Table.{put, put_same}
use flux_trade.Persistence.Journal.{wal_header_bytes}
use flux_trade.Persistence.Disk.{
  Directory, DiskJournal, rotate_file, write, extend, hand_on, close_file, open_file, file_bytes,
}

pub file_bytes-of_some :
    (j : ℕ) (dir : Directory) (bytes : List ℕ) → dir j ≡ some bytes → file_bytes j dir ≡ bytes
file_bytes-of_some j dir bytes h = ground arith

-- The files as they are once all that is pending has been handed on.
unfoldable pub flushed_files : DiskJournal → Directory
flushed_files j = if j.is_open then extend j.pending j else j.directory

same_files : (f g : Directory) → ((k : ℕ) → f k ≡ g k) → f ≡ g
same_files f g h = λ i k. h k i

file_bytes-put :
    (i : ℕ) (bytes : List ℕ) (dir : Directory) → file_bytes i (put i (some bytes) dir) ≡ bytes
file_bytes-put i bytes dir =
    file_bytes-of_some i (put i (some bytes) dir) bytes (put_same i (some bytes) dir)

-- What is put at an index twice.
put_twice : (i : ℕ) (a b : Option (List ℕ)) (dir : Directory) → put i b (put i a dir) ≡ put i b dir
put_twice i a b dir = same_files _ _ (λ k. ground arith)

extend_twice :
    (ps qs : List ℕ) (j j' : DiskJournal)
    → j'.directory ≡ extend ps j
    → j'.file_index ≡ j.file_index
    → extend qs j' ≡ extend (ps ++ qs) j
extend_twice ps qs j j' d i =
    let i0 = j.file_index in
    let old = file_bytes i0 j.directory in
    ap₂ (λ f k. put k (some (file_bytes k f ++ qs)) f) d i
    ∙ put_twice i0 (some (old ++ ps)) _ j.directory
    ∙ ap (λ bytes. put i0 (some bytes) j.directory)
        (ap (λ bytes. bytes ++ qs) (file_bytes-put i0 (old ++ ps) j.directory)
          ∙ append_assoc old ps qs)

flushed-open : (j : DiskJournal) → j.is_open ≡ true → flushed_files j ≡ extend j.pending j
unfolding flushed_files
flushed-open j h = ground arith

-- Whatever the stream hands on of its own accord, the bytes that are written follow those before them.
pub flushed-write :
    (bytes : List ℕ) (j : DiskJournal)
    → j.is_open ≡ true
    → flushed_files (write bytes j)
      ≡ put j.file_index
          (some (file_bytes j.file_index (flushed_files j) ++ bytes))
          (flushed_files j)
unfolding write
flushed-write bytes j h =
    let pending = j.pending ++ bytes in
    let n = j.spill pending in
    let j' : DiskJournal = write bytes j in
    let i = j.file_index in
    let flushed : DiskJournal = record j { directory = extend j.pending j } in
    flushed-open j' h
    ∙ extend_twice (take n pending) (drop n pending) j j' refl refl
    ∙ ap (λ bs. extend bs j) (take-drop n pending)
    ∙ sym (extend_twice j.pending bytes j flushed refl refl)
    ∙ ap (λ f. put i (some (file_bytes i f ++ bytes)) f) (sym (flushed-open j h))

pub flushed-hand_on :
    (j : DiskJournal)
    → j.is_open ≡ true
    → (flushed_files (hand_on j) ≡ flushed_files j) × (flushed_files j ≡ (hand_on j).directory)
unfolding hand_on
flushed-hand_on j h = (
  flushed-open (hand_on j) h
      ∙ extend_twice j.pending [] j (hand_on j) refl refl
      ∙ ap (λ bs. extend bs j) (append-nil j.pending)
      ∙ sym (flushed-open j h),
  flushed-open j h,
)

-- Closing the file hands on all that is pending.
pub flushed-close_file :
    (j : DiskJournal)
    → ((close_file j).directory ≡ flushed_files j) × ((close_file j).file_index ≡ j.file_index)
unfolding close_file hand_on flushed_files
flushed-close_file j = elim (Bool-cases j.is_open) [
  | inl opened ↦ rw opened (refl, refl)
  | inr closed ↦ rw closed (refl, refl)
]

flushed-open_file :
    (index : ℕ) (j : DiskJournal)
    → flushed_files (open_file index j) ≡ put index (some []) j.directory
unfolding open_file
flushed-open_file index j =
    let truncated = put index (some []) j.directory in
    flushed-open (open_file index j) refl
    ∙ ap (λ bytes. put index (some (bytes ++ [])) truncated) (file_bytes-put index [] j.directory)
    ∙ put_twice index (some []) (some []) j.directory

-- The files that a rotation leaves: those there were, with all that was pending, and one more.
pub flushed-rotate_file :
    (now sequence : ℕ) (j : DiskJournal)
    → flushed_files (rotate_file now sequence j)
      ≡ put (add64 j.file_index 1) (some (wal_header_bytes sequence now)) (flushed_files j)
unfolding rotate_file flushed_files open_file write
flushed-rotate_file now sequence j =
    let index = add64 j.file_index 1 in
    let header = wal_header_bytes sequence now in
    flushed-write header (open_file index (close_file j)) refl
    ∙ ap (λ f. put index (some (file_bytes index f ++ header)) f)
        (flushed-open_file index (close_file j))
    ∙ ap
        (λ bytes. put index (some (bytes ++ header)) (put index (some []) (close_file j).directory))
        (file_bytes-put index [] (close_file j).directory)
    ∙ put_twice index (some []) (some header) (close_file j).directory
    ∙ ap (put index (some header)) (flushed-close_file j).0
