-- ===== src/Persistence/Tests.antt =====
-- The journal's properties at two commands.
use Prim.Native.Nat.{◌∣◌}
use native.Mathlib.Nat.{dvd_of_mod-eq-zero}
use flux_trade.Prelude.{ℕ, List, [], ◌∷◌, ◌≡◌, refl, arith, get_or, map}
use flux_trade.Prelude.Int.{pos}
use flux_trade.Prelude.Words.{u64_mod}
use flux_trade.Common.Ring.{Ring, pop}
use flux_trade.Common.Queue.{IsRing}
use flux_trade.Persistence.Bytes.{bytes_of}
use flux_trade.Book.State.{new_book}
use flux_trade.Gateway.Commands.{CommandType, OrderCommand, blank_command}
use flux_trade.Persistence.CommandBytes.{IsCommand, command_bytes}
use flux_trade.Persistence.Journal.{log_entry, LogEntry}
use flux_trade.Persistence.Disk.{
  FlushPolicy, write_entry, rotate_file, run_round, run_rounds, Writer, write, open_file,
  close_file, hand_on, flush, run, stop,
}
use flux_trade.Persistence.Replay.{replay_journals}
use flux_trade.Persistence.Records.{outcome}
use flux_trade.Persistence.Survival.{
  entry_of, apply_commands, commands_survive, flushed_commands_survive, begun,
}

abbrev bid : OrderCommand
bid = record blank_command {
  sequence = 1;
  timestamp = 50;
  client_order_id = 7;
  symbol_id = 1;
  price = pos 100;
  qty = 30;
}

abbrev withdrawal : OrderCommand
withdrawal = record blank_command {
  type = CommandType.cancel_order;
  sequence = 2;
  timestamp = 60;
  orig_client_order_id = 7;
  symbol_id = 1;
}

bid-IsCommand : IsCommand bid
bid-IsCommand = record {
  sequence = omega arith;
  timestamp = omega arith;
  client_order_id = omega arith;
  orig_client_order_id = omega arith;
  symbol_id = omega arith;
  account_id = omega arith;
  price = refl;
  qty = omega arith;
  tif = omega arith;
  tif_named = refl;
}

withdrawal-IsCommand : IsCommand withdrawal
withdrawal-IsCommand = record {
  sequence = omega arith;
  timestamp = omega arith;
  client_order_id = omega arith;
  orig_client_order_id = omega arith;
  symbol_id = omega arith;
  account_id = omega arith;
  price = refl;
  qty = omega arith;
  tif = omega arith;
  tif_named = refl;
}

abbrev gap : OrderCommand → ℕ
gap cmd = 9

abbrev commands : List OrderCommand
commands = bid ∷ withdrawal ∷ []

abbrev entries : List LogEntry
entries = map (entry_of gap) commands

four : 4 ∣ u64_mod
four = dvd_of_mod-eq-zero 4 refl

abbrev waiting : Ring LogEntry
waiting = record {
  buffer = λ i. get_or (entry_of gap bid) i entries;
  capacity = 4;
  write_idx = 2;
  read_idx = 0;
}

waiting-IsRing : IsRing waiting
waiting-IsRing = record {
  divides = four;
  some_room = omega arith;
  below_mod = omega arith;
  write_word = omega arith;
  read_word = omega arith;
  fits = omega arith;
}

-- A stream that hands on five bytes whenever it is written to, and a file size that makes every entry
-- start a file.
abbrev spill : List ℕ → ℕ
spill bytes = 5

abbrev writer : FlushPolicy → Writer
writer policy = begun waiting spill policy 40 0

two_files : (stop (λ i. i) (λ i. i) 2 (writer FlushPolicy.never)).journal.file_index ≡ 2
unfolding stop run run_round write_entry rotate_file pop log_entry command_bytes bytes_of write
    open_file close_file hand_on flush
two_files = refl

commands_survive_example :
    replay_journals 3 1
      (stop (λ i. i) (λ i. i) 2 (writer FlushPolicy.never)).journal.directory
      new_book
      0
    ≡ outcome (apply_commands commands new_book 0)
commands_survive_example =
    commands_survive gap commands waiting spill 40 0 (λ i. i) (λ i. i) 2 3 new_book 0
      FlushPolicy.never (bid-IsCommand, (withdrawal-IsCommand, tt)) waiting-IsRing refl
      (omega arith) (omega arith) (omega (arith, two_files))

two_flushed : (run_rounds (λ i. i) (λ i. i) 2 (writer FlushPolicy.immediate)).journal.file_index ≡ 2
unfolding run_round write_entry rotate_file pop log_entry command_bytes bytes_of write open_file
    close_file hand_on flush
two_flushed = refl

flushed_commands_survive_example :
    replay_journals 3 1
      (run_rounds (λ i. i) (λ i. i) 2 (writer FlushPolicy.immediate)).journal.directory
      new_book
      0
    ≡ outcome (apply_commands commands new_book 0)
flushed_commands_survive_example =
    flushed_commands_survive gap commands waiting spill 40 0 (λ i. i) (λ i. i) 2 3 new_book 0
      (bid-IsCommand, (withdrawal-IsCommand, tt)) waiting-IsRing refl (omega arith) (omega arith)
      (omega (arith, two_flushed))
