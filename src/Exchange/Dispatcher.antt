-- ===== src/Exchange/Dispatcher.antt =====
-- exchange/include/exchange/dispatcher.hpp, with its 32 symbols of 4096 commands.
use flux_trade.Prelude.{ℕ, ◌%◌, Bool}
use flux_trade.Common.Table.{put}
use flux_trade.Common.Ring.{Ring, empty_ring, push}
use flux_trade.Gateway.Commands.{OrderCommand, blank_command}

abbrev pub num_symbols : ℕ
num_symbols = 32

abbrev pub queue_capacity : ℕ
queue_capacity = 4096

abbrev pub Dispatcher : Type 0
Dispatcher = ℕ → Ring OrderCommand

abbrev pub new_dispatcher : Dispatcher
new_dispatcher = λ i. empty_ring blank_command queue_capacity

-- The queue of a symbol.
abbrev pub slot_of_symbol : ℕ → ℕ
slot_of_symbol symbol_id = symbol_id % num_symbols

unfoldable pub dispatch : OrderCommand → Dispatcher → Bool × Dispatcher
dispatch cmd queues =
    let slot = slot_of_symbol cmd.symbol_id in
    let (ok, queue) = push cmd (queues slot) in (ok, put slot queue queues)
