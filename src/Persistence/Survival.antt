-- ===== src/Persistence/Survival.antt =====
-- From the commands that are journalled to the book that a replay gives.
use flux_trade.Prelude.{
  ℕ, ◌<◌, ◌≤◌, true, false, Option, none, some, List, [], ◌∷◌, ◌≡◌, refl, ap, ap₂, sym, ◌∙◌, subst,
  arith, All, leb, length, map, ◌^◌, Bool-cases, inl, inr,
}
use flux_trade.Prelude.Words.{u64_mod}
use flux_trade.Common.Ring.{Ring}
use flux_trade.Common.Queue.{IsRing, contents}
use flux_trade.Book.State.{LimitOrderBook}
use flux_trade.Gateway.Commands.{CommandType, OrderCommand}
use flux_trade.Persistence.CommandBytes.{
  command_code, command_bytes, replayed, IsCommand, command_at-command_bytes, length-command_bytes,
}
use flux_trade.Persistence.Writing.{run_rounds-IsLogged, stop-files, prompt-files}
use flux_trade.Persistence.Journal.{log_entry, LogEntry}
use flux_trade.Persistence.Disk.{FlushPolicy, new_journal, Writer, run_rounds, stop}
use flux_trade.Persistence.Replay.{apply_payload, apply_command, replay_journals}
use flux_trade.Persistence.Records.{
  IsEntry, log_entry-IsEntry, apply_entries, apply_rest, apply_entries_old, apply_entries_new,
  outcome,
}
use flux_trade.Persistence.Files.{IsLogged}
use flux_trade.Persistence.Stream.{flushed_files}
use flux_trade.Persistence.Recovery.{replay-Holds}

-- What process_command journals for a command; `gap` is the byte of its padding that nothing sets.
abbrev pub entry_of : (OrderCommand → ℕ) → OrderCommand → LogEntry
entry_of gap cmd =
    log_entry cmd.sequence cmd.timestamp (command_code cmd.type) (command_bytes (gap cmd) cmd)

-- Each command's effect on the book in turn, but for those with a sequence number that has been reached
-- before.
abbrev pub apply_commands : List OrderCommand → LimitOrderBook → ℕ → Option (LimitOrderBook × ℕ)
apply_commands [] book seq = some (book, seq)
apply_commands (c ∷ cs) book seq = elim (leb c.sequence seq) [
  | true ↦ apply_commands cs book seq
  | false ↦ elim (apply_command (command_code c.type) (replayed c) c.timestamp book) [
    | none ↦ none
    | some book' ↦ apply_commands cs book' c.sequence
  ]
]

payload_of_command :
    (gap : OrderCommand → ℕ) (c : OrderCommand) (book : LimitOrderBook)
    → IsCommand c
    → apply_payload (entry_of gap c).header (entry_of gap c).payload book
      ≡ apply_command (command_code c.type) (replayed c) c.timestamp book
unfolding apply_payload log_entry
payload_of_command gap c book v =
    rw (length-command_bytes (gap c) c, command_at-command_bytes (gap c) c v) refl

command_code_small : (t : CommandType) → command_code t < 2 ^ 16
command_code_small CommandType.new_order = omega arith
command_code_small CommandType.cancel_order = omega arith
command_code_small CommandType.replace_order = omega arith

entry_of-sequence :
    (gap : OrderCommand → ℕ) (c : OrderCommand) → (entry_of gap c).header.sequence ≡ c.sequence
unfolding log_entry
entry_of-sequence gap c = refl

entry_of-IsEntry :
    (gap : OrderCommand → ℕ) (c : OrderCommand) → IsCommand c → IsEntry (entry_of gap c)
entry_of-IsEntry gap c v =
    log_entry-IsEntry c.sequence c.timestamp (command_code c.type) (command_bytes (gap c) c)
      v.sequence v.timestamp (command_code_small c.type)
      (omega (arith, length-command_bytes (gap c) c))

commands_rest : List OrderCommand → ℕ → Option LimitOrderBook → Option (LimitOrderBook × ℕ)
commands_rest cs seq none = none
commands_rest cs seq (some book) = apply_commands cs book seq

commands_old :
    (c : OrderCommand) (cs : List OrderCommand) (book : LimitOrderBook) (seq : ℕ)
    → leb c.sequence seq ≡ true
    → apply_commands (c ∷ cs) book seq ≡ apply_commands cs book seq
commands_old c cs book seq h = ground arith

commands_new :
    (c : OrderCommand) (cs : List OrderCommand) (book : LimitOrderBook) (seq : ℕ)
    → leb c.sequence seq ≡ false
    → apply_commands (c ∷ cs) book seq
      ≡ commands_rest cs c.sequence
          (apply_command (command_code c.type) (replayed c) c.timestamp book)
unfolding commands_rest
commands_new c cs book seq h = ground arith

rest_of-commands :
    (gap : OrderCommand → ℕ) (cs : List OrderCommand) (seq : ℕ) (p : Option LimitOrderBook)
    → ((book : LimitOrderBook)
        → apply_entries (map (entry_of gap) cs) book seq ≡ apply_commands cs book seq)
    → apply_rest (map (entry_of gap) cs) seq p ≡ commands_rest cs seq p
unfolding commands_rest
rest_of-commands gap cs seq none h = refl
rest_of-commands gap cs seq (some book) h = h book

entries_of-commands :
    (gap : OrderCommand → ℕ) (cs : List OrderCommand) (book : LimitOrderBook) (seq : ℕ)
    → All IsCommand cs
    → apply_entries (map (entry_of gap) cs) book seq ≡ apply_commands cs book seq
entries_of-commands gap [] book seq v = refl
entries_of-commands gap (c ∷ cs) book seq (v, vs) =
    let e = entry_of gap c in
    let number : e.header.sequence ≡ c.sequence = entry_of-sequence gap c in
    let reached : leb e.header.sequence seq ≡ leb c.sequence seq = ap (λ k. leb k seq) number in
    elim (Bool-cases (leb c.sequence seq)) [
      | inl old ↦
          apply_entries_old e (map (entry_of gap) cs) book seq (reached ∙ old)
          ∙ entries_of-commands gap cs book seq vs
          ∙ sym (commands_old c cs book seq old)
      | inr new ↦
          apply_entries_new e (map (entry_of gap) cs) book seq (reached ∙ new)
          ∙ ap₂ (apply_rest (map (entry_of gap) cs)) number (payload_of_command gap c book v)
          ∙ rest_of-commands gap cs c.sequence
              (apply_command (command_code c.type) (replayed c) c.timestamp book)
              (λ book'. entries_of-commands gap cs book' c.sequence vs)
          ∙ sym (commands_new c cs book seq new)
    ]

pub entries_of-IsEntry :
    (gap : OrderCommand → ℕ) (cs : List OrderCommand)
    → All IsCommand cs
    → All IsEntry (map (entry_of gap) cs)
entries_of-IsEntry gap [] v = tt
entries_of-IsEntry gap (c ∷ cs) (v, vs) = (entry_of-IsEntry gap c v, entries_of-IsEntry gap cs vs)

new_journal-IsLogged :
    (spill : List ℕ → ℕ) (policy : FlushPolicy) (max_file_size : ℕ)
    → IsLogged (new_journal spill (λ i. none) policy max_file_size) []
unfolding flushed_files
new_journal-IsLogged spill policy max_file_size = record {
  holds = (refl, refl);
  beyond = λ k less. refl;
  opened = λ p. cc;
}

-- The journal's thread as it starts in an empty directory.
abbrev pub begun : Ring LogEntry → (List ℕ → ℕ) → FlushPolicy → ℕ → ℕ → Writer
begun queue spill policy max_file_size last_flush = record {
  queue = queue;
  journal = new_journal spill (λ i. none) policy max_file_size;
  batch_count = 0;
  last_flush = last_flush;
}

module _ (gap : OrderCommand → ℕ) (cs : List OrderCommand) (queue : Ring LogEntry)
    (spill : List ℕ → ℕ) (max_file_size last_flush : ℕ) (now steady : ℕ → ℕ) (n fuel : ℕ)
    (book : LimitOrderBook) (seq : ℕ) where
  -- What a replay of all the bytes written would give.
  replay_flushed :
      (policy : FlushPolicy)
      → All IsCommand cs
      → IsRing queue
      → contents queue ≡ map (entry_of gap) cs
      → n < u64_mod
      → length (contents queue) ≤ n
      → let done =
          (run_rounds now steady n (begun queue spill policy max_file_size last_flush)).journal in
        done.file_index < fuel
        → replay_journals fuel 1 (flushed_files done) book seq
          ≡ outcome (apply_commands cs book seq)
  replay_flushed policy v r waits few enough more =
      let start = begun queue spill policy max_file_size last_flush in
      let done = (run_rounds now steady n start).journal in
      let logged =
        run_rounds-IsLogged now steady n start [] r
          (new_journal-IsLogged spill policy max_file_size) (omega (arith, few)) enough in
      let entries = subst (IsLogged done) waits logged in
      replay-Holds done.file_index fuel 1 (flushed_files done) (map (entry_of gap) cs) book seq more
        (entries_of-IsEntry gap cs v) entries.holds
      ∙ ap outcome (entries_of-commands gap cs book seq v)

  -- Commands whose numbers fit their fields, and whose entries wait in order in the journal's queue,
  -- a valid ring, survive: once the disk journal, begun in an empty directory, has made at least a
  -- round for each of them and fewer than 2 ^ 64 and has been stopped, a replay of the files, with
  -- more fuel than there are files, has the commands' effects on any book in order, but for commands
  -- whose sequence number had been reached. So it is whatever the flush policy, the file size and the
  -- bytes that the stream hands on of its own accord.
  pub commands_survive :
      (policy : FlushPolicy)
      → All IsCommand cs
      → IsRing queue
      → contents queue ≡ map (entry_of gap) cs
      → n < u64_mod
      → length (contents queue) ≤ n
      → let stopped =
          (stop now steady n (begun queue spill policy max_file_size last_flush)).journal in
        stopped.file_index < fuel
        → replay_journals fuel 1 stopped.directory book seq ≡ outcome (apply_commands cs book seq)
  commands_survive policy v r waits few enough more =
      let start = begun queue spill policy max_file_size last_flush in
      let (files, index) = stop-files now steady n start in
      ap (λ dir. replay_journals fuel 1 dir book seq) files
      ∙ replay_flushed policy v r waits few enough (omega (arith, index, more))

  -- With the flush policy Immediate, the same commands survive without a stop: after at least a round
  -- for each of them, and with no flush but those of the rounds, a replay of the bytes that have
  -- reached the files has the commands' effects on any book in order.
  pub flushed_commands_survive :
      All IsCommand cs
      → IsRing queue
      → contents queue ≡ map (entry_of gap) cs
      → n < u64_mod
      → length (contents queue) ≤ n
      → let done =
          (run_rounds now steady n
            (begun queue spill FlushPolicy.immediate max_file_size last_flush)).journal in
        done.file_index < fuel
        → replay_journals fuel 1 done.directory book seq ≡ outcome (apply_commands cs book seq)
  flushed_commands_survive v r waits few enough more =
      ap (λ dir. replay_journals fuel 1 dir book seq)
        (prompt-files now steady n
          (begun queue spill FlushPolicy.immediate max_file_size last_flush) refl refl)
      ∙ replay_flushed FlushPolicy.immediate v r waits few enough more
