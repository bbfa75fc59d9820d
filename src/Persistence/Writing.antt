-- ===== src/Persistence/Writing.antt =====
-- The loop of the disk journal's thread: what it takes from the queue stands in its files.
use flux_trade.Prelude.{
  ℕ, zero, suc, ◌+◌, ◌<◌, ◌≤◌, none, some, List, [], ◌∷◌, ◌++◌, ◌≡◌, refl, ap, sym, ◌∙◌, subst,
  arith, leb, length, append_assoc, append-nil, Bool-cases, inl, inr, Option-cases, true, false,
  not, ◌&&◌, ◌||◌,
}
use flux_trade.Prelude.Words.{u64_mod, add64, sub64}
use flux_trade.Common.Ring.{Ring, pop}
use flux_trade.Common.Queue.{IsRing, contents, pop-some, pop-none}
use flux_trade.Persistence.Journal.{LogEntry}
use flux_trade.Persistence.Disk.{
  FlushPolicy, DiskJournal, Writer, write_entry, flush, flush_written, flush_idle, run_round,
  run_rounds, batch_size, flush_interval_ns, hand_on, close_file, is_never, run, stop, rotate_file,
  write, open_file,
}
use flux_trade.Persistence.Files.{IsLogged, write_entry-IsLogged}
use flux_trade.Persistence.Stream.{flushed_files, flushed-hand_on, flushed-close_file}

-- Two journals with the same files, once what is pending has been handed on.
abbrev SameFiles : DiskJournal → DiskJournal → Type 0
SameFiles j j' =
    (flushed_files j' ≡ flushed_files j) × (j'.file_index ≡ j.file_index) × (j'.is_open ≡ j.is_open)

flush-SameFiles : (j : DiskJournal) → SameFiles j (flush j)
unfolding flush hand_on
flush-SameFiles j = elim (Bool-cases (j.is_open && not (is_never j.policy))) [
  | inl hands ↦
      let yet : j.is_open ≡ true = ground arith in rw hands ((flushed-hand_on j yet).0, refl, refl)
  | inr keeps ↦ rw keeps (refl, refl, refl)
]

written-SameFiles :
    (p : FlushPolicy) (w : Writer)
    → SameFiles w.journal (flush_written p w).journal × ((flush_written p w).queue ≡ w.queue)
written-SameFiles FlushPolicy.never w = ((refl, refl, refl), refl)
written-SameFiles FlushPolicy.interval w = ((refl, refl, refl), refl)
written-SameFiles FlushPolicy.immediate w = (flush-SameFiles w.journal, refl)
written-SameFiles FlushPolicy.batch w = elim (Bool-cases (leb batch_size w.batch_count)) [
  | inl full ↦ rw full (flush-SameFiles w.journal, refl)
  | inr room ↦ rw room ((refl, refl, refl), refl)
]

idle-SameFiles :
    (p : FlushPolicy) (steady : ℕ) (w : Writer)
    → SameFiles w.journal (flush_idle p steady w).journal
      × ((flush_idle p steady w).queue ≡ w.queue)
idle-SameFiles FlushPolicy.never steady w = ((refl, refl, refl), refl)
idle-SameFiles FlushPolicy.immediate steady w = ((refl, refl, refl), refl)
idle-SameFiles FlushPolicy.batch steady w = ((refl, refl, refl), refl)
idle-SameFiles FlushPolicy.interval steady w =
    elim (Bool-cases (leb flush_interval_ns (sub64 steady w.last_flush))) [
      | inl due ↦ rw due (flush-SameFiles w.journal, refl)
      | inr early ↦ rw early ((refl, refl, refl), refl)
    ]

IsLogged-SameFiles :
    (j j' : DiskJournal) (es : List LogEntry) → SameFiles j j' → IsLogged j es → IsLogged j' es
IsLogged-SameFiles j j' es (d, i, o) v = record {
  holds = rw (d, i) v.holds;
  beyond = λ k less. ap (λ f. f k) d ∙ v.beyond k (omega (arith, i, less));
  opened = λ p. omega (arith, i, v.opened (sym o ∙ p));
}

-- A round on an empty queue, and on one with an entry at its front.
round_idle :
    (now steady : ℕ) (w : Writer)
    → pop w.queue ≡ none
    → run_round now steady w ≡ flush_idle w.journal.policy steady w
unfolding run_round
round_idle now steady w e = ground arith

round_write :
    (now steady : ℕ) (w : Writer) (e : LogEntry) (q : Ring LogEntry)
    → pop w.queue ≡ some (e, q)
    → run_round now steady w
      ≡ flush_written w.journal.policy (record w {
        queue = q;
        journal = write_entry now e w.journal;
        batch_count = add64 w.batch_count 1;
      })
unfolding run_round
round_write now steady w e q h = ground arith

nothing_of : (fs : List LogEntry) → length fs ≤ 0 → fs ≡ []
nothing_of [] h = refl
nothing_of (f ∷ fs) h = absurd (omega (arith, h))

-- What a round comes to, with n entries at most left in the queue.
abbrev Went : ℕ → List LogEntry → Writer → Writer → Type 0
Went n es w u =
    (written : List LogEntry) × (contents w.queue ≡ written ++ contents u.queue)
    × IsRing u.queue
    × IsLogged u.journal (es ++ written)
    × (u.journal.file_index ≤ suc w.journal.file_index)
    × (length (contents u.queue) ≤ n)

idle-Went :
    (p : FlushPolicy) (steady n : ℕ) (w : Writer) (es : List LogEntry)
    → IsRing w.queue
    → IsLogged w.journal es
    → contents w.queue ≡ []
    → Went n es w (flush_idle p steady w)
idle-Went p steady n w es v l empty =
    let (files, queue) = idle-SameFiles p steady w in
    (
      [],
      ap contents (sym queue),
      subst IsRing (sym queue) v,
      subst (IsLogged (flush_idle p steady w).journal) (sym (append-nil es))
          (IsLogged-SameFiles w.journal (flush_idle p steady w).journal es files l),
      omega (arith, files.1),
      omega (arith, ap length (ap contents queue ∙ empty)),
    )

written-Went :
    (p : FlushPolicy) (now n : ℕ) (w : Writer) (es : List LogEntry) (e : LogEntry)
    (q : Ring LogEntry)
    → IsRing q
    → IsLogged w.journal es
    → suc w.journal.file_index < u64_mod
    → contents w.queue ≡ e ∷ contents q
    → length (contents w.queue) ≤ suc n
    → Went n es w (
        flush_written p (record w {
          queue = q;
          journal = write_entry now e w.journal;
          batch_count = add64 w.batch_count 1;
        }))
written-Went p now n w es e q v l few shows enough =
    let u : Writer = record w {
      queue = q;
      journal = write_entry now e w.journal;
      batch_count = add64 w.batch_count 1;
    } in
    let (files, queue) = written-SameFiles p u in
    let (logged, index) = write_entry-IsLogged now e w.journal es few l in
    (
      e ∷ [],
      shows ∙ ap (λ r. e ∷ contents r) (sym queue),
      subst IsRing (sym queue) v,
      IsLogged-SameFiles u.journal (flush_written p u).journal (es ++ e ∷ []) files logged,
      omega (arith, files.1, index),
      omega (arith, ap length shows, ap (λ r. length (contents r)) queue, enough),
    )

round-Went :
    (now steady n : ℕ) (w : Writer) (es : List LogEntry)
    → IsRing w.queue
    → IsLogged w.journal es
    → suc w.journal.file_index < u64_mod
    → length (contents w.queue) ≤ suc n
    → Went n es w (run_round now steady w)
round-Went now steady n w es v l few enough = elim (Option-cases (pop w.queue)) [
  | inl nothing ↦
      subst (Went n es w) (sym (round_idle now steady w nothing))
        (idle-Went w.journal.policy steady n w es v l (pop-none w.queue v nothing))
  | inr ((e, q), found) ↦
      let (vq, shows) = pop-some w.queue e q v found in
      subst (Went n es w) (sym (round_write now steady w e q found))
        (written-Went w.journal.policy now n w es e q vq l few shows enough)
]

-- The loop has written all that its queue held when it has made a round for each entry, whatever the
-- flush policy and the file size are: once what is pending has been handed on, the files hold what they
-- held before, followed by the entries of the queue in order.
pub run_rounds-IsLogged :
    (now steady : ℕ → ℕ) (n : ℕ) (w : Writer) (es : List LogEntry)
    → IsRing w.queue
    → IsLogged w.journal es
    → w.journal.file_index + n < u64_mod
    → length (contents w.queue) ≤ n
    → IsLogged (run_rounds now steady n w).journal (es ++ contents w.queue)
run_rounds-IsLogged now steady zero w es v l few enough =
    subst (IsLogged w.journal)
      (sym (ap (λ xs. es ++ xs) (nothing_of (contents w.queue) enough) ∙ append-nil es)) l
run_rounds-IsLogged now steady (suc n) w es v l few enough =
    let (written, split, v', l', index, left) =
      round-Went (now n) (steady n) n w es v l (omega (arith, few)) enough in
    subst (IsLogged (run_rounds now steady (suc n) w).journal)
      (append_assoc es written _ ∙ ap (λ xs. es ++ xs) (sym split))
      (run_rounds-IsLogged now steady n (run_round (now n) (steady n) w) (es ++ written) v' l'
        (omega (arith, index, few)) left)

-- When the thread has been joined and the file closed, nothing is pending, whatever the flush policy.
pub stop-files :
    (now steady : ℕ → ℕ) (n : ℕ) (w : Writer)
    → let done = (run_rounds now steady n w).journal in
      ((stop now steady n w).journal.directory ≡ flushed_files done)
      × ((stop now steady n w).journal.file_index ≡ done.file_index)
unfolding stop run
stop-files now steady n w =
    let done = (run_rounds now steady n w).journal in
    let (files, index, opened) = flush-SameFiles done in
    let (closed, same) = flushed-close_file (flush done) in (closed ∙ files, same ∙ index)

-- A journal whose reader sees all that has been written.
abbrev Synced : DiskJournal → Type 0
Synced j = j.directory ≡ flushed_files j

flush_hands_on :
    (j : DiskJournal) → j.is_open ≡ true → is_never j.policy ≡ false → flush j ≡ hand_on j
unfolding flush
flush_hands_on j opened h = ground arith

flush_closed : (j : DiskJournal) → j.is_open ≡ false → flush j ≡ j
unfolding flush
flush_closed j closed = ground arith

closed-Synced : (j : DiskJournal) → j.is_open ≡ false → Synced j
unfolding flushed_files
closed-Synced j closed = ground arith

flush-Synced : (j : DiskJournal) → is_never j.policy ≡ false → Synced (flush j)
flush-Synced j h = elim (Bool-cases j.is_open) [
  | inl opened ↦
      let (same, shown) = flushed-hand_on j opened in
      subst Synced (sym (flush_hands_on j opened h)) (sym shown ∙ sym same)
  | inr closed ↦ subst Synced (sym (flush_closed j closed)) (closed-Synced j closed)
]

flush-policy : (j : DiskJournal) → (flush j).policy ≡ j.policy
unfolding flush hand_on
flush-policy j = ground arith

close_file-policy : (j : DiskJournal) → (close_file j).policy ≡ j.policy
unfolding close_file hand_on
close_file-policy j = ground arith

write_entry-policy :
    (now : ℕ) (e : LogEntry) (j : DiskJournal) → (write_entry now e j).policy ≡ j.policy
unfolding write_entry write rotate_file open_file
write_entry-policy now e j =
    elim (Bool-cases (not j.is_open || leb j.max_file_size j.current_bytes)) [
      | inl rotates ↦ rw rotates (close_file-policy j)
      | inr stays ↦ rw stays refl
    ]

-- A writer that flushes after each entry, with nothing pending.
abbrev IsPrompt : Writer → Type 0
IsPrompt w = (w.journal.policy ≡ FlushPolicy.immediate) × Synced w.journal

flush_written-IsPrompt :
    (p : FlushPolicy) (w : Writer)
    → p ≡ FlushPolicy.immediate
    → w.journal.policy ≡ FlushPolicy.immediate
    → IsPrompt (flush_written p w)
flush_written-IsPrompt p w i same =
    subst (λ q. IsPrompt (flush_written q w)) (sym i)
      (flush-policy w.journal ∙ same, flush-Synced w.journal (ap is_never same))

round-IsPrompt : (now steady : ℕ) (w : Writer) → IsPrompt w → IsPrompt (run_round now steady w)
round-IsPrompt now steady w (i, synced) = elim (Option-cases (pop w.queue)) [
  | inl nothing ↦
      subst IsPrompt (sym (round_idle now steady w nothing ∙ ap (λ p. flush_idle p steady w) i))
        (i, synced)
  | inr ((e, q), found) ↦
      subst IsPrompt (sym (round_write now steady w e q found))
        (flush_written-IsPrompt w.journal.policy _ i (write_entry-policy now e w.journal ∙ i))
]

run_rounds-IsPrompt :
    (now steady : ℕ → ℕ) (n : ℕ) (w : Writer) → IsPrompt w → IsPrompt (run_rounds now steady n w)
run_rounds-IsPrompt now steady zero w h = h
run_rounds-IsPrompt now steady (suc n) w h =
    run_rounds-IsPrompt now steady n _ (round-IsPrompt (now n) (steady n) w h)

-- With the immediate policy nothing is pending between rounds.
pub prompt-files :
    (now steady : ℕ → ℕ) (n : ℕ) (w : Writer)
    → w.journal.policy ≡ FlushPolicy.immediate
    → w.journal.is_open ≡ false
    → (run_rounds now steady n w).journal.directory
      ≡ flushed_files (run_rounds now steady n w).journal
prompt-files now steady n w i closed =
    (run_rounds-IsPrompt now steady n w (i, closed-Synced w.journal closed)).1
