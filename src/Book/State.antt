-- ===== src/Book/State.antt =====
-- The state of LimitOrderBook (matching/order_book/order_book.hpp and order_book.cpp), and the steps
-- that its operations share. `none` means that the run has left defined behaviour: a pool is
-- exhausted inside a noexcept function, or a pointer that the source takes for granted is null.
use flux_trade.Prelude.{ℕ, Option, none, some, List, [], ◌∷◌, ◌++◌, ◌>>=◌, if◌then◌else◌}
use flux_trade.Prelude.Int.{pos}
use flux_trade.Domain.{Side, buy, sell, Price, Quantity, LiveOrder}
use flux_trade.Common.ObjectPool.{ObjectPool, init, allocate, deallocate}
use flux_trade.Book.Level
use flux_trade.Book.Level.{PriceLevelNode, is_empty}
use flux_trade.Book.Levels.{find_level, link, write_level, unlink}
use flux_trade.Book.Lookup
use flux_trade.Book.Lookup.{OrderLookup}

-- What an IOrderBookListener is told.
pub data BookEvent : Type 0 where
  order_inserted order_cancelled : LiveOrder → BookEvent
  order_filled : LiveOrder → Quantity → BookEvent
  price_level_created price_level_removed : Price → Side → BookEvent

-- `events` is what a listener has been told, oldest first; with no listener nobody reads it.
pub record LimitOrderBook : Type 0 where
  pub bids : List PriceLevelNode
  pub asks : List PriceLevelNode
  pub lookup : OrderLookup
  pub level_pool : ObjectPool
  pub order_pool : ObjectPool
  pub events : List BookEvent

unfoldable pub new_book : LimitOrderBook
new_book = record {
  bids = [];
  asks = [];
  lookup = [];
  level_pool = init 1024;
  order_pool = init 10240;
  events = [];
}

abbrev pub notify : BookEvent → LimitOrderBook → LimitOrderBook
notify e b = record b { events = b.events ++ e ∷ [] }

abbrev pub levels_of : Side → LimitOrderBook → List PriceLevelNode
levels_of buy b = b.bids
levels_of sell b = b.asks

abbrev pub set_levels : Side → List PriceLevelNode → LimitOrderBook → LimitOrderBook
set_levels buy ls b = record b { bids = ls }
set_levels sell ls b = record b { asks = ls }

-- The level of a price: the bids are asked first.
unfoldable pub locate : Price → LimitOrderBook → Option (Side × PriceLevelNode)
locate p b = elim (find_level p b.bids) [
  | some level ↦ some (buy, level)
  | none ↦ elim (find_level p b.asks) [ some level ↦ some (sell, level) | none ↦ none ]
]

unfoldable pub orders_of : List PriceLevelNode → List LiveOrder
orders_of [] = []
orders_of (l ∷ ls) = l.orders ++ orders_of ls

-- The object that a pointer of `lookup_` points to.
unfoldable pub deref : ℕ → LimitOrderBook → Option LiveOrder
deref slot b = Level.find_slot slot (orders_of b.bids ++ orders_of b.asks)

unfoldable pub best_price : List PriceLevelNode → Price
best_price [] = pos 0
best_price (l ∷ ls) = l.price

unfoldable pub best_bid : LimitOrderBook → Price
best_bid b = best_price b.bids

unfoldable pub best_ask : LimitOrderBook → Price
best_ask b = best_price b.asks

-- create_level of the side's book.
unfoldable pub create_level :
    Side → Price → LimitOrderBook → Option (PriceLevelNode × LimitOrderBook)
create_level side price b = do
  (slot, pool) ← allocate b.level_pool
  let node : PriceLevelNode = record {
    slot = slot;
    price = price;
    total_qty = 0;
    order_count = 0;
    orders = [];
  }
  some (node, record (set_levels side (link side node (levels_of side b)) b) { level_pool = pool })

-- remove_level of the side's book.
unfoldable pub remove_level : Side → PriceLevelNode → LimitOrderBook → LimitOrderBook
remove_level side level b = record (set_levels side (unlink level.price (levels_of side b)) b) {
  level_pool = deallocate level.slot b.level_pool;
}

-- An order has left `level`: an empty level is removed with a notice, any other is written.
unfoldable pub settle : Side → Price → PriceLevelNode → LimitOrderBook → LimitOrderBook
settle side price level b =
    if is_empty level.orders
    then notify (BookEvent.price_level_removed price side) (remove_level side level b)
    else set_levels side (write_level level (levels_of side b)) b

-- lookup_.erase and order_pool_.deallocate.
unfoldable pub release : ℕ → ℕ → LimitOrderBook → LimitOrderBook
release order_id slot b = record b {
  lookup = Lookup.erase order_id b.lookup;
  order_pool = deallocate slot b.order_pool;
}
