-- ===== src/Exchange/Tests.antt =====
-- The exchange's properties at one engine and a few commands.
use Prim.Native.Nat.{◌∣◌}
use native.Mathlib.Nat.{dvd_of_mod-eq-zero}
use flux_trade.Prelude.{
  ℕ, ◌≤◌, Bool, true, [], ◌∷◌, ◌++◌, Option, none, some, ◌≡◌, refl, ap, arith, get_or, map, length,
}
use flux_trade.Prelude.Int.{pos, ◌-ℤ◌, ◌+ℤ◌}
use flux_trade.Prelude.Words.{u64_mod}
use flux_trade.Domain.{buy, sell, Price, OrderType, RejectReason}
use flux_trade.Common.Ring.{Ring, empty_ring}
use flux_trade.Common.Queue.{IsRing, contents}
use flux_trade.Book.Valid.{IsValid}
use flux_trade.Book.State.{new_book, locate, deref, orders_of}
use flux_trade.Gateway.Inbound.{Gateway}
use flux_trade.Book.Samples.{second_ask, near_asks, small_book, small_book-IsValid, small_book-Room}
use flux_trade.Matching.Context.{ExecutionContext, MatchingResult, MatchingStatus, push}
use flux_trade.Matching.Engine.{
  MatchingEngine, submit_order, match_levels, finish_order, rest_or_expire, accept, new_engine,
}
use flux_trade.Matching.TradeBuilder.{build_ack, build_expiration}
use flux_trade.Matching.Statistics.{zeros, record_latency}
use flux_trade.Risk.Credit
use flux_trade.Risk.Credit.{account_state}
use flux_trade.Risk.Margin
use flux_trade.Risk.Duplicates
use flux_trade.Risk.Duplicates.{check_duplicate}
use flux_trade.Risk.RateLimit
use flux_trade.Risk.RateLimit.{fresh, stamp, check_tracker, check_rate}
use flux_trade.Risk.Gates.{kill_switch, circuit_breaker, fat_finger, price_band, self_trade}
use flux_trade.Risk.Pipeline.{RiskTrace, check, run_stages}
use flux_trade.Risk.Engine
use flux_trade.Risk.Engine.{RiskEngine}
use flux_trade.Gateway.Commands.{CommandType, OrderCommand, blank_command}
use flux_trade.Persistence.Journal.{log_entry}
use flux_trade.Persistence.Survival.{entry_of}
use flux_trade.Exchange.Reports.{OutboundReport, reject_report, execution_report}
use flux_trade.Exchange.EngineManager.{
  EngineManager, Readings, risk_context, order_of, process_command,
}
use flux_trade.Exchange.Cancels.{cancel_report, cancel_command_is_reported}
use flux_trade.Book.Level
use flux_trade.Book.Levels.{find_level}
use flux_trade.Book.Lookup
use flux_trade.Book.Cancel.{Points}
use flux_trade.Exchange.Dispatcher.{Dispatcher}
use flux_trade.Exchange.Venue.{drain, response_rounds}
use flux_trade.Exchange.Routing.{for_slot, drain_routes}
use flux_trade.Exchange.Responses.{all_sent, reject_report-IsReport, responses_in_order}
use flux_trade.Exchange.Commands.{accepted_order_is_reported, new_order_keeps_book}

abbrev bid : OrderCommand
bid = record blank_command {
  sequence = 1;
  timestamp = 50;
  client_order_id = 77;
  symbol_id = 1;
  price = pos 100;
  qty = 3;
}

abbrev at : Readings
at = record {
  risk_start = 1;
  risk_end = 2;
  reject_time = 3;
  exchange_time = 4;
  match_start = 5;
  match_time = 6;
  match_end = 7;
}

abbrev any_price : Price → Price → Bool
any_price a b = true

-- The reject of the bid serves as the value of the slots that hold nothing.
abbrev manager : EngineManager
manager = record {
  outbound_queue = empty_ring (reject_report RejectReason.none 0 bid) 4;
  journal_queue = empty_ring (log_entry 0 0 0 []) 4;
  matching = record { book = small_book; stats = zeros; trade_seq = 9; exec_seq = 1 };
  risk = Engine.reset;
  exec_ctx = record { trades = []; reports = [] };
}

-- The cancellation of an order that stands.
abbrev withdrawal : OrderCommand
withdrawal = record bid { type = CommandType.cancel_order; orig_client_order_id = 12 }

-- A market order that finds nothing.
abbrev taker : OrderCommand
taker = record bid { order_type = OrderType.market }

abbrev Answer : Type 0
Answer = RejectReason × Bool × RiskTrace × RiskEngine

abbrev answer : OrderCommand → EngineManager → Answer
answer cmd m = Engine.validate any_price (risk_context (pos 100) cmd) [] 1 m.risk

answer_is : (ok : Bool) (a : Answer) → a.1 ≡ ok → a ≡ (a.0, ok, a.2, a.3)
answer_is ok a h = ap (λ b. (a.0, b, a.2, a.3)) h

taker-accepted : (answer taker manager).1 ≡ true
unfolding Engine.validate Engine.reset risk_context run_stages check kill_switch circuit_breaker
    check_duplicate check_rate check_tracker stamp fat_finger price_band self_trade Margin.validate
    Margin.within_limits Margin.position_state Margin.reset ◌-ℤ◌ ◌+ℤ◌ Credit.validate account_state
    Credit.reset Duplicates.reset RateLimit.reset fresh
taker-accepted = refl

bid-accepted : (answer bid manager).1 ≡ true
unfolding Engine.validate Engine.reset risk_context run_stages check kill_switch circuit_breaker
    check_duplicate check_rate check_tracker stamp fat_finger price_band self_trade Margin.validate
    Margin.within_limits Margin.position_state Margin.reset ◌-ℤ◌ ◌+ℤ◌ Credit.validate account_state
    Credit.reset Duplicates.reset RateLimit.reset fresh
bid-accepted = refl

withdrawal-accepted : (answer withdrawal manager).1 ≡ true
unfolding Engine.validate Engine.reset risk_context run_stages check kill_switch circuit_breaker
    check_duplicate check_rate check_tracker stamp fat_finger price_band self_trade Margin.validate
    Margin.within_limits Margin.position_state Margin.reset ◌-ℤ◌ ◌+ℤ◌ Credit.validate account_state
    Credit.reset Duplicates.reset RateLimit.reset fresh
withdrawal-accepted = refl

four : 4 ∣ u64_mod
four = dvd_of_mod-eq-zero 4 refl

empty-IsRing :
    (a : ℕ → OutboundReport)
    → IsRing (record { buffer = a; capacity = 4; write_idx = 0; read_idx = 0 })
empty-IsRing a = record {
  divides = four;
  some_room = omega arith;
  below_mod = omega arith;
  write_word = omega arith;
  read_word = omega arith;
  fits = omega arith;
}

journal-IsRing : IsRing manager.journal_queue
journal-IsRing = record {
  divides = four;
  some_room = omega arith;
  below_mod = omega arith;
  write_word = omega arith;
  read_word = omega arith;
  fits = omega arith;
}

new_order_keeps_book_example :
    (m' : EngineManager) × (process_command any_price (pos 100) 0 at bid manager ≡ some m')
    × IsValid m'.matching.book
new_order_keeps_book_example =
    new_order_keeps_book any_price (pos 100) 0 at bid manager (answer bid manager).0
      (answer bid manager).2 (answer bid manager).3 true
      (answer_is true (answer bid manager) bid-accepted) refl small_book-IsValid small_book-Room
      (omega arith)

-- What the matching engine makes of the market order on an empty book.
abbrev untouched : EngineManager
untouched = record manager { matching = new_engine }

abbrev blank : ExecutionContext
blank = record { trades = []; reports = [] }

abbrev matched : Option (MatchingResult × MatchingEngine × ExecutionContext)
matched = submit_order (order_of 4 taker) 5 6 7 new_engine blank

abbrev got : MatchingResult × MatchingEngine × ExecutionContext
got = elim matched [
  | none ↦ (record { status = MatchingStatus.expired; trades_generated = 0 }, new_engine, blank)
  | some r ↦ r
]

taker-matched : matched ≡ some (got.0, got.1, got.2)
unfolding submit_order match_levels finish_order rest_or_expire accept build_ack build_expiration
    order_of new_engine new_book push record_latency
taker-matched = refl

taker-reports : length got.2.reports ≡ 2
unfolding submit_order match_levels finish_order rest_or_expire accept build_ack build_expiration
    order_of new_engine new_book push record_latency
taker-reports = refl

accepted_order_is_reported_example :
    (m' : EngineManager) × (process_command any_price (pos 100) 0 at taker untouched ≡ some m')
    × (m'.matching ≡ got.1)
    × (m'.exec_ctx ≡ got.2)
    × (contents m'.journal_queue ≡ contents untouched.journal_queue ++ entry_of (λ c. 0) taker ∷ [])
    × (contents m'.outbound_queue
        ≡ contents untouched.outbound_queue
          ++ map (execution_report taker.conn_id taker.side) got.2.reports)
accepted_order_is_reported_example =
    accepted_order_is_reported any_price (pos 100) 0 at taker untouched (answer taker untouched).0
      (answer taker untouched).2 (answer taker untouched).3 got.0 got.1 got.2
      (answer_is true (answer taker untouched) taker-accepted) refl taker-matched journal-IsRing
      (omega arith) (empty-IsRing untouched.outbound_queue.buffer) (omega (arith, taker-reports))

second_ask-Points : Points 12 second_ask sell near_asks small_book
unfolding Lookup.find deref orders_of Level.find_slot locate find_level
second_ask-Points = (refl, refl, (refl, refl))

cancel_command_is_reported_example :
    (m' : EngineManager) × (process_command any_price (pos 100) 0 at withdrawal manager ≡ some m')
    × IsValid m'.matching.book
    × (Lookup.find 12 m'.matching.book.lookup ≡ none)
    × (contents m'.journal_queue
        ≡ contents manager.journal_queue ++ entry_of (λ c. 0) withdrawal ∷ [])
    × (contents m'.outbound_queue
        ≡ contents manager.outbound_queue
          ++ execution_report withdrawal.conn_id buy (cancel_report 1 6 withdrawal second_ask) ∷ [])
cancel_command_is_reported_example =
    cancel_command_is_reported any_price (pos 100) 0 at withdrawal manager
      (answer withdrawal manager).0 (answer withdrawal manager).2 (answer withdrawal manager).3
      second_ask sell near_asks (answer_is true (answer withdrawal manager) withdrawal-accepted)
      refl small_book-IsValid second_ask-Points journal-IsRing (omega arith)
      (empty-IsRing manager.outbound_queue.buffer) (omega arith)

-- Two commands, for symbols 1 and 33, that share a slot.
abbrev two_commands : Ring OrderCommand
two_commands = record {
  buffer = λ i. get_or bid i (bid ∷ record taker { symbol_id = 33 } ∷ []);
  capacity = 4;
  write_idx = 2;
  read_idx = 0;
}

commands-IsRing : (w : ℕ) → w ≤ 4 → IsRing (record two_commands { write_idx = w })
commands-IsRing w h = record {
  divides = four;
  some_room = omega arith;
  below_mod = omega arith;
  write_word = omega (arith, h);
  read_word = omega arith;
  fits = omega (arith, h);
}

abbrev queues : Dispatcher
queues i = record two_commands { write_idx = 0 }

drain_routes_example :
    (inbound' : Ring OrderCommand) × (queues' : Dispatcher) × (drain 3 (two_commands, queues)
      ≡ some (inbound', queues'))
    × (contents inbound' ≡ [])
    × (contents (queues' 1) ≡ contents (queues 1) ++ for_slot 1 (contents two_commands))
drain_routes_example =
    drain_routes 3 1 two_commands queues (omega arith) (commands-IsRing 2 (omega arith))
      (commands-IsRing 0 (omega arith), omega arith)

abbrev waiting : Ring OutboundReport
waiting = record manager.outbound_queue { write_idx = 1 }

waiting-IsRing : IsRing waiting
waiting-IsRing = record {
  divides = four;
  some_room = omega arith;
  below_mod = omega arith;
  write_word = omega arith;
  read_word = omega arith;
  fits = omega arith;
}

abbrev gateway : Gateway
gateway = record {
  sessions = [];
  sequence = 1;
  inbound_queue = two_commands;
  actions = [];
  clock_reads = 0;
}

responses_in_order_example :
    (outbound' : Ring OutboundReport) × (response_rounds 2 (waiting, gateway)
      ≡ (outbound', all_sent (contents waiting) gateway))
    × (contents outbound' ≡ [])
responses_in_order_example =
    responses_in_order 2 waiting gateway waiting-IsRing
      (reject_report-IsReport RejectReason.none 0 bid, tt) (omega arith)
