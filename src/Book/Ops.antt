-- ===== src/Book/Ops.antt =====
-- matching/order_book/order_book.cpp: the operations of LimitOrderBook.
use flux_trade.Prelude.{
  ℕ, Bool, true, false, Option, none, some, List, [], ◌∷◌, ◌>>=◌, ◌==◌, ltb, if◌then◌else◌,
}
use flux_trade.Domain.{Side, Price, Quantity, Order, LiveOrder, qty_add, qty_sub}
use flux_trade.Common.ObjectPool.{ObjectPool, allocate, deallocate}
use flux_trade.Book.Level
use flux_trade.Book.Level.{PriceLevelNode}
use flux_trade.Book.Levels.{find_level, write_level}
use flux_trade.Book.Lookup
use flux_trade.Book.State.{
  LimitOrderBook, BookEvent, notify, levels_of, set_levels, locate, create_level, settle, release,
  deref,
}

-- Step 3 of `insert`.
unfoldable pub find_or_create :
    Side → Price → LimitOrderBook → Option (PriceLevelNode × LimitOrderBook)
find_or_create side price b = elim (find_level price (levels_of side b)) [
  | some level ↦ some (level, b)
  | none ↦ do
    (level, b') ← create_level side price b
    some (level, notify (BookEvent.price_level_created price side) b')
]

unfoldable pub live_of : Order → ℕ → ℕ → LiveOrder
live_of order slot priority_seq = record {
  slot = slot;
  key = record { symbol_id = order.symbol_id; order_id = order.order_id };
  price = order.price;
  remaining_qty = order.qty;
  priority_seq = priority_seq;
}

unfoldable pub insert : Order → ℕ → LimitOrderBook → Option LimitOrderBook
insert order priority_seq b = do
  (slot, pool) ← allocate b.order_pool
  let live = live_of order slot priority_seq
  (level, b') ←
      find_or_create order.side order.price
        (record b { order_pool = pool; lookup = Lookup.insert order.order_id slot b.lookup })
  some (
      notify (BookEvent.order_inserted live)
        (set_levels order.side (write_level (Level.join live level) (levels_of order.side b')) b'))

unfoldable pub cancel_at : ℕ → ℕ → LimitOrderBook → Option LimitOrderBook
cancel_at order_id slot b = do
  order ← deref slot b
  (side, level) ← locate order.price b
  resting ← Level.find_slot slot level.orders
  let level' = Level.leave resting resting.remaining_qty level
  let b' = settle side order.price level' (notify (BookEvent.order_cancelled order) b)
  some (release order_id slot b')

unfoldable pub cancel : ℕ → LimitOrderBook → Option (Bool × LimitOrderBook)
cancel order_id b = elim (Lookup.find order_id b.lookup) [
  | none ↦ some (false, b)
  | some slot ↦ do b' ← cancel_at order_id slot b; some (true, b')
]

-- A smaller quantity keeps the order's place, a larger one moves it to the tail.
unfoldable pub resize : LiveOrder → Quantity → ℕ → PriceLevelNode → PriceLevelNode
resize order new_qty priority_seq level =
    if ltb new_qty order.remaining_qty
    then record level {
      orders = Level.store (record order { remaining_qty = new_qty }) level.orders;
      total_qty = qty_sub level.total_qty (qty_sub order.remaining_qty new_qty);
    }
    else if ltb order.remaining_qty new_qty
    then record level {
      orders =
          Level.append (record order { remaining_qty = new_qty; priority_seq = priority_seq })
            (Level.remove order.slot level.orders);
      total_qty = qty_add level.total_qty (qty_sub new_qty order.remaining_qty);
    }
    else level

unfoldable pub modify_at : ℕ → Quantity → ℕ → LimitOrderBook → Option LimitOrderBook
modify_at slot new_qty priority_seq b = do
  order ← deref slot b
  (side, level) ← locate order.price b
  resting ← Level.find_slot slot level.orders
  some (
      set_levels side (write_level (resize resting new_qty priority_seq level) (levels_of side b))
        b)

unfoldable pub modify_qty : ℕ → Quantity → ℕ → LimitOrderBook → Option (Bool × LimitOrderBook)
modify_qty order_id new_qty priority_seq b = elim (Lookup.find order_id b.lookup) [
  | none ↦ some (false, b)
  | some slot ↦ do b' ← modify_at slot new_qty priority_seq b; some (true, b')
]

-- The order has been filled and stands at nothing: it leaves the level and the pool.
unfoldable pub complete :
    LiveOrder → Quantity → Side → PriceLevelNode → LimitOrderBook → LimitOrderBook
complete order filled_qty side level b =
    release order.key.order_id order.slot
      (settle side order.price (Level.leave order filled_qty level) b)

-- The order stays in its level, with less.
unfoldable pub shrink :
    LiveOrder → Quantity → Side → PriceLevelNode → LimitOrderBook → LimitOrderBook
shrink order filled_qty side level b =
    set_levels side
      (write_level
        (record level {
          orders = Level.store order level.orders;
          total_qty = qty_sub level.total_qty filled_qty;
        })
        (levels_of side b))
      b

-- The fill of an order that stands in `level`.
unfoldable pub fill_at :
    LiveOrder → Quantity → Side → PriceLevelNode → LimitOrderBook → LimitOrderBook
fill_at order filled_qty side level b =
    let order' : LiveOrder = record order {
      remaining_qty = qty_sub order.remaining_qty filled_qty;
    } in
    let b' = notify (BookEvent.order_filled order' filled_qty) b in
    if order'.remaining_qty == 0
    then complete order' filled_qty side level b'
    else shrink order' filled_qty side level b'

-- `order` is the live object that the pointer points to.
unfoldable pub fill_order : LiveOrder → Quantity → LimitOrderBook → Option LimitOrderBook
fill_order order filled_qty b = do
  (side, level) ← locate order.price b
  some (fill_at order filled_qty side level b)

-- BidBook::clear and AskBook::clear: every order, then its level, goes back to the pools.
unfoldable pub free_orders : List LiveOrder → ObjectPool → ObjectPool
free_orders [] pool = pool
free_orders (o ∷ os) pool = free_orders os (deallocate o.slot pool)

unfoldable pub clear_levels : List PriceLevelNode → LimitOrderBook → LimitOrderBook
clear_levels [] b = b
clear_levels (l ∷ ls) b = clear_levels ls (record b {
  order_pool = free_orders l.orders b.order_pool;
  level_pool = deallocate l.slot b.level_pool;
})

unfoldable pub clear : LimitOrderBook → LimitOrderBook
clear b = record (clear_levels b.asks (clear_levels b.bids b)) { bids = []; asks = []; lookup = [] }
