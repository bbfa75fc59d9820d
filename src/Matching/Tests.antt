-- ===== src/Matching/Tests.antt =====
-- The engine's properties at a concrete book and order.
use flux_trade.Prelude.{
  ℕ, ◌+◌, ◌≤◌, ◌%◌, some, List, [], ◌++◌, ◌≡◌, refl, arith, All, map, length, take,
}
use flux_trade.Prelude.Int.{pos}
use flux_trade.Prelude.Words.{u32_mod, add64}
use flux_trade.Domain.{buy, sell, OrderType, Order, LiveOrder}
use flux_trade.Book.State.{orders_of}
use flux_trade.Book.Sums.{total}
use flux_trade.Book.Valid.{IsValid}
use flux_trade.Book.Samples.{small_book, small_book-IsValid, small_book-Room, limit_order}
use flux_trade.Matching.Context.{ExecutionContext, MatchingResult, max_trades}
use flux_trade.Matching.Statistics.{zeros}
use flux_trade.Matching.Engine.{
  MatchingEngine, Matching, blocked, accept, match_levels, rounds, submit_order,
}
use flux_trade.Matching.Sweep.{Fill, sweep}
use flux_trade.Matching.SweepLaws.{Acceptable, WholeButLast, leftover}
use flux_trade.Matching.Trades.{trades_of}
use flux_trade.Matching.AllLevels.{Matched}
use flux_trade.Matching.Finish.{status_of, Rests}
use flux_trade.Matching.Submit.{queue, swept_by, matching-refines-sweep, submit_order-refines}
use flux_trade.Matching.Outcome.{
  submit_order_conserves, submit_order_serves, submit_order_trades, submit_order-Rests,
  submit_order_drops,
}

abbrev started : MatchingEngine
started = record { book = small_book; stats = zeros; trade_seq = 9; exec_seq = 1 }

abbrev blank : ExecutionContext
blank = record { trades = []; reports = [] }

-- Takes the 5 and the 3 at 101 and wants 2 more, with 105 beyond its limit.
abbrev big_buy : Order
big_buy = limit_order buy (pos 103) 10

-- Takes the bid of 4 and is left wanting 2.
abbrev big_stop : Order
big_stop = record (limit_order sell (pos 90) 6) { type = OrderType.stop }

big_buy-left : (swept_by big_buy small_book).left ≡ 2
unfolding sweep blocked orders_of
big_buy-left = refl

submit_order-refines_example :
    (res : MatchingResult) × (e' : MatchingEngine) × (ctx' : ExecutionContext) × (submit_order
        big_buy 100 101 350 started blank
      ≡ some (res, e', ctx'))
    × IsValid e'.book
    × (queue sell e'.book ≡ (swept_by big_buy small_book).rest)
    × (res.status ≡ status_of big_buy (swept_by big_buy small_book).left)
submit_order-refines_example =
    submit_order-refines big_buy 100 101 350 started blank small_book-IsValid small_book-Room
      (omega arith)

matching-refines-sweep_example :
    let start = accept big_buy 101 started blank in
    (m : Matching) × (match_levels (rounds big_buy small_book) big_buy 101 start ≡ some m)
    × Matched big_buy 101 start m (swept_by big_buy small_book)
matching-refines-sweep_example =
    matching-refines-sweep big_buy 101 started blank small_book-IsValid (omega arith)

submit_order_conserves_example :
    (res : MatchingResult) × (e' : MatchingEngine) × (ctx' : ExecutionContext) × (traded left : ℕ)
    × (submit_order big_buy 100 101 350 started blank ≡ some (res, e', ctx'))
    × (left + traded ≡ 10)
    × (total (queue sell e'.book) + traded ≡ total (queue sell small_book))
    × (e'.stats.shares_executed ≡ add64 0 traded)
    × (res.status ≡ status_of big_buy left)
submit_order_conserves_example =
    submit_order_conserves big_buy 100 101 350 started blank small_book-IsValid small_book-Room
      (omega arith) (omega arith)

submit_order_serves_example :
    (res : MatchingResult) × (e' : MatchingEngine) × (ctx' : ExecutionContext) × (fills : List Fill)
    × (untouched : List LiveOrder) × (submit_order big_buy 100 101 350 started blank
        ≡ some (res, e', ctx'))
    × (queue sell small_book ≡ map (λ f. f.resting) fills ++ untouched)
    × (queue sell e'.book ≡ leftover fills untouched)
    × WholeButLast fills
    × All (λ f. Acceptable big_buy f.resting.price × (f.qty ≤ f.resting.remaining_qty)) fills
submit_order_serves_example =
    submit_order_serves big_buy 100 101 350 started blank small_book-IsValid small_book-Room
      (omega arith)

submit_order_trades_example :
    (res : MatchingResult) × (e' : MatchingEngine) × (ctx' : ExecutionContext) × (submit_order
        big_buy 100 101 350 started blank
      ≡ some (res, e', ctx'))
    × (let fills = (swept_by big_buy small_book).fills in
        (ctx'.trades ≡ take max_trades ([] ++ trades_of big_buy 101 9 fills))
        × (e'.trade_seq ≡ add64 9 (length fills))
        × (res.trades_generated ≡ length fills % u32_mod))
submit_order_trades_example =
    submit_order_trades big_buy 100 101 350 started blank small_book-IsValid small_book-Room
      (omega arith) (omega arith) (omega arith)

submit_order-Rests_example :
    (res : MatchingResult) × (e' : MatchingEngine) × (ctx' : ExecutionContext) × (submit_order
        big_buy 100 101 350 started blank
      ≡ some (res, e', ctx'))
    × Rests big_buy small_book e'.book
submit_order-Rests_example =
    submit_order-Rests big_buy 100 101 350 started blank small_book-IsValid small_book-Room
      (omega arith) refl (omega (arith, big_buy-left))

submit_order_drops_example :
    (res : MatchingResult) × (e' : MatchingEngine) × (ctx' : ExecutionContext) × (submit_order
        big_stop 100 101 350 started blank
      ≡ some (res, e', ctx'))
    × (e'.book.asks ≡ small_book.asks)
    × (res.status ≡ status_of big_stop (swept_by big_stop small_book).left)
submit_order_drops_example =
    submit_order_drops big_stop 100 101 350 started blank small_book-IsValid small_book-Room
      (omega arith) refl
