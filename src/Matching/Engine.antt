-- ===== src/Matching/Engine.antt =====
-- matching/src/matching_engine.cpp. The readings of Clock::now_steady are arguments. The matching of
-- a buy and that of a sell are one text over the side, as in the source they differ in the side of
-- the book and in the price test alone.
use flux_trade.Prelude.{
  ℕ, zero, suc, min, Bool, true, false, ◌&&◌, Option, none, some, List, [], ◌∷◌, ◌>>=◌, ◌==◌, ltb,
  if◌then◌else◌, length,
}
use flux_trade.Prelude.Words.{add32, add64, sub64, mul64, to_u64}
use flux_trade.Domain.{
  Side, buy, sell, opposite, OrderType, Price, Quantity, price_lt, price_gt, qty_sub, Order,
  LiveOrder,
}
use flux_trade.Book.Lookup
use flux_trade.Book.State.{LimitOrderBook, new_book, levels_of, deref}
use flux_trade.Book.Ops
use flux_trade.Book.Ops.{fill_order}
use flux_trade.Matching.Context.{
  ExecutionContext, MatchingStatus, success, partially_filled, filled, expired, MatchingResult,
}
use flux_trade.Matching.TradeBuilder.{build_match, build_ack, build_cancel, build_expiration}
use flux_trade.Matching.Statistics.{MatchingStatistics, zeros, record_latency}

pub record MatchingEngine : Type 0 where
  pub book : LimitOrderBook
  pub stats : MatchingStatistics
  pub trade_seq : ℕ
  pub exec_seq : ℕ

-- The engine with the locals of `submit_order` that its loops change.
pub record Matching : Type 0 where
  pub engine : MatchingEngine
  pub ctx : ExecutionContext
  pub remaining_qty : Quantity
  pub trades_generated : ℕ

-- Whether a resting price is beyond the limit of an aggressive order's side and price.
abbrev pub beyond : Side → Price → Price → Bool
beyond buy limit resting = price_lt limit resting
beyond sell limit resting = price_gt limit resting

abbrev pub is_limit : OrderType → Bool
is_limit OrderType.limit = true
is_limit OrderType.market = false
is_limit OrderType.stop = false

-- The test that ends the matching at a level.
unfoldable pub blocked : Order → Price → Bool
blocked order level_price = is_limit order.type && beyond order.side order.price level_price

unfoldable pub can_self_trade : Order → LiveOrder → Bool
can_self_trade aggressive resting = true

abbrev pub count_trade : Quantity → Price → MatchingStatistics → MatchingStatistics
count_trade qty price s = record s {
  trades_executed = add64 s.trades_executed 1;
  shares_executed = add64 s.shares_executed qty;
  total_traded_volume = add64 s.total_traded_volume (mul64 qty (to_u64 price));
}

-- The body of the inner loop, for a resting order that the order may trade with.
unfoldable pub trade_with : Order → ℕ → Price → LiveOrder → Matching → Option Matching
trade_with order timestamp match_price resting m = do
  let e = m.engine
  let match_qty = min m.remaining_qty resting.remaining_qty
  let remaining_maker = qty_sub resting.remaining_qty match_qty
  let remaining_taker = qty_sub m.remaining_qty match_qty
  let taker_seq = e.exec_seq
  let maker_seq = add64 e.exec_seq 1
  let ctx' =
      build_match e.trade_seq taker_seq maker_seq order resting match_qty match_price
        remaining_taker remaining_maker timestamp m.ctx
  book' ← fill_order resting match_qty e.book
  some (record {
    engine = record {
      book = book';
      stats = count_trade match_qty match_price e.stats;
      trade_seq = add64 e.trade_seq 1;
      exec_seq = add64 maker_seq 1;
    };
    ctx = ctx';
    remaining_qty = remaining_taker;
    trades_generated = add32 m.trades_generated 1;
  })

-- The inner loop over the resting orders of a level. Each `next` is read before the fill, and a fill
-- changes no other order, so the list is the one that the level held when the loop began.
unfoldable pub match_orders : Order → ℕ → Price → List LiveOrder → Matching → Option Matching
match_orders order timestamp match_price [] m = some m
match_orders order timestamp match_price (resting ∷ rest) m = elim (ltb 0 m.remaining_qty) [
  | false ↦ some m
  | true ↦ elim (can_self_trade order resting) [
    | false ↦ match_orders order timestamp match_price rest m
    | true ↦ do
      m' ← trade_with order timestamp match_price resting m
      match_orders order timestamp match_price rest m'
  ]
]

-- The outer loop, on fuel for its rounds.
unfoldable pub match_levels : ℕ → Order → ℕ → Matching → Option Matching
match_levels zero order timestamp m = none
match_levels (suc fuel) order timestamp m = elim (ltb 0 m.remaining_qty) [
  | false ↦ some m
  | true ↦ elim (levels_of (opposite order.side) m.engine.book) [
    | [] ↦ some m
    | level ∷ _ ↦ elim (blocked order level.price) [
      | true ↦ some m
      | false ↦ do
        m' ← match_orders order timestamp level.price level.orders m
        match_levels fuel order timestamp m'
    ]
  ]
]

-- Each round empties the best level or ends the loop.
abbrev pub rounds : Order → LimitOrderBook → ℕ
rounds order book = suc (suc (length (levels_of (opposite order.side) book)))

-- Step 3 for a remainder, by the order's type. A stop order's remainder is dropped.
unfoldable pub rest_or_expire :
    OrderType → Order → ℕ → Matching → Option (MatchingStatus × MatchingEngine × ExecutionContext)
rest_or_expire OrderType.limit order timestamp m = do
  let e = m.engine
  book' ← Ops.insert order order.seq_num e.book
  some (
    if m.remaining_qty == order.qty then success else partially_filled,
    record e { book = book' },
    m.ctx,
  )
rest_or_expire OrderType.market order timestamp m = some (
  expired,
  record m.engine { exec_seq = add64 m.engine.exec_seq 1 },
  build_expiration m.engine.exec_seq order m.remaining_qty timestamp m.ctx,
)
rest_or_expire OrderType.stop order timestamp m = some (success, m.engine, m.ctx)

unfoldable pub finish_order :
    Order → ℕ → Matching → Option (MatchingStatus × MatchingEngine × ExecutionContext)
finish_order order timestamp m =
    if ltb 0 m.remaining_qty
    then rest_or_expire order.type order timestamp m
    else some (
      filled,
      record m.engine {
        stats = record m.engine.stats { orders_matched = add64 m.engine.stats.orders_matched 1 };
      },
      m.ctx,
    )

-- Steps 1 and 2: the acknowledgement, and the state in which the loops start.
unfoldable pub accept : Order → ℕ → MatchingEngine → ExecutionContext → Matching
accept order timestamp e ctx = record {
  engine = record e {
    stats = record e.stats { orders_received = add64 e.stats.orders_received 1 };
    exec_seq = add64 e.exec_seq 1;
  };
  ctx = build_ack e.exec_seq order timestamp ctx;
  remaining_qty = order.qty;
  trades_generated = 0;
}

-- Step 4.
abbrev pub count_latency : ℕ → MatchingEngine → MatchingEngine
count_latency ns e = record e { stats = record_latency ns e.stats }

-- The clock is read at the start, for the time stamp, and at the end.
unfoldable pub submit_order :
    Order
    → ℕ
    → ℕ
    → ℕ
    → MatchingEngine
    → ExecutionContext
    → Option (MatchingResult × MatchingEngine × ExecutionContext)
submit_order order start timestamp end e ctx = do
  m ← match_levels (rounds order e.book) order timestamp (accept order timestamp e ctx)
  (status, e', ctx') ← finish_order order timestamp m
  some (
    record { status = status; trades_generated = m.trades_generated },
    count_latency (sub64 end start) e',
    ctx',
  )

-- A cancelled order is read before it is removed.
unfoldable pub cancel_order :
    ℕ
    → ℕ
    → ℕ
    → ℕ
    → ℕ
    → ℕ
    → ℕ
    → MatchingEngine
    → ExecutionContext
    → Option (Bool × MatchingEngine × ExecutionContext)
cancel_order order_id client_id account_id symbol_id start timestamp end e ctx =
    elim (Lookup.find order_id e.book.lookup) [
      | none ↦ some (
        false,
        record e { stats = record e.stats { orders_rejected = add64 e.stats.orders_rejected 1 } },
        ctx,
      )
      | some slot ↦ do
        order ← deref slot e.book
        (done, book') ← Ops.cancel order_id e.book
        some (
          true,
          count_latency (sub64 end start) (record e {
            book = book';
            exec_seq = add64 e.exec_seq 1;
            stats = record e.stats { orders_cancelled = add64 e.stats.orders_cancelled 1 };
          }),
          build_cancel e.exec_seq order client_id account_id symbol_id timestamp ctx,
        )
    ]

unfoldable pub modify_order :
    ℕ → Quantity → ℕ → ℕ → ℕ → MatchingEngine → Option (Bool × MatchingEngine)
modify_order order_id new_qty start now end e = do
  (done, book') ← Ops.modify_qty order_id new_qty now e.book
  some (done, count_latency (sub64 end start) (record e { book = book' }))

unfoldable pub reset : MatchingEngine → MatchingEngine
reset e = record { book = Ops.clear e.book; stats = zeros; trade_seq = 1; exec_seq = 1 }

unfoldable pub new_engine : MatchingEngine
new_engine = record { book = new_book; stats = zeros; trade_seq = 1; exec_seq = 1 }
