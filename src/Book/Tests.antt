-- ===== src/Book/Tests.antt =====
-- The book's properties at concrete books.
use flux_trade.Prelude.{true, some, List, [], ◌∷◌, ◌++◌, ◌≡◌, refl, arith, if◌then◌else◌}
use flux_trade.Prelude.Int.{pos}
use flux_trade.Domain.{buy, sell, Price, price_eq, LiveOrder}
use flux_trade.Common.ObjectPool.{allocate}
use flux_trade.Book.Level
use flux_trade.Book.Level.{PriceLevelNode}
use flux_trade.Book.Levels.{find_level}
use flux_trade.Book.Lookup
use flux_trade.Book.Lookup.{find-insert, find-erase}
use flux_trade.Book.State.{LimitOrderBook, locate, deref, orders_of}
use flux_trade.Book.Ops.{insert, cancel, modify_qty, fill_order, live_of}
use flux_trade.Book.Valid.{IsValid}
use flux_trade.Book.Fill.{Stands, fill_order-IsValid}
use flux_trade.Book.Cancel.{Points, cancel-IsValid}
use flux_trade.Book.Modify.{resized, modify_qty-resizes}
use flux_trade.Book.Insert.{target, insert-IsValid}
use flux_trade.Book.Samples.{
  second_ask, near_asks, small_book, small_book-IsValid, spare_orders, spare_levels, limit_order,
}

second_ask-Stands : Stands second_ask sell near_asks small_book
unfolding locate find_level Level.find_slot
second_ask-Stands = (refl, refl)

second_ask-Points : Points 12 second_ask sell near_asks small_book
unfolding Lookup.find deref orders_of Level.find_slot
second_ask-Points = (refl, refl, second_ask-Stands)

fill_order-IsValid_example :
    (b' : LimitOrderBook) × (fill_order second_ask 2 small_book ≡ some b') × IsValid b'
fill_order-IsValid_example =
    fill_order-IsValid second_ask 2 sell near_asks small_book small_book-IsValid second_ask-Stands
      (omega arith)

cancel-IsValid_example :
    (b' : LimitOrderBook) × (cancel 12 small_book ≡ some (true, b')) × IsValid b'
cancel-IsValid_example =
    cancel-IsValid 12 second_ask sell near_asks small_book small_book-IsValid second_ask-Points

modify_qty-resizes_example :
    (b' : LimitOrderBook) × (l' : PriceLevelNode) × (before : List LiveOrder) × (after : List
      LiveOrder)
    × (modify_qty 12 9 60 small_book ≡ some (true, b'))
    × IsValid b'
    × (near_asks.orders ≡ before ++ second_ask ∷ after)
    × (l'.orders ≡ resized before second_ask after 9 60)
    × ((q : Price)
        → find_level q b'.asks
          ≡ (if price_eq second_ask.price q then some l' else find_level q small_book.asks))
    × (b'.bids ≡ small_book.bids)
modify_qty-resizes_example =
    modify_qty-resizes 12 9 60 second_ask sell near_asks small_book small_book-IsValid
      second_ask-Points (omega arith)

free_order : allocate small_book.order_pool ≡ some (4, record spare_orders { free_list = 5 ∷ [] })
unfolding allocate
free_order = refl

free_level : allocate small_book.level_pool ≡ some (3, record spare_levels { free_list = 4 ∷ [] })
unfolding allocate
free_level = refl

insert-IsValid_example :
    let order = limit_order buy (pos 100) 6 in
    (b' : LimitOrderBook) × (insert order 50 small_book ≡ some b')
    × IsValid b'
    × ((q : Price)
        → find_level q b'.bids ≡ (
            if price_eq (pos 100) q
            then some (
                Level.join
                  (live_of order 4 50)
                  (target 3 (pos 100) (find_level (pos 100) small_book.bids)))
            else find_level q small_book.bids))
    × (b'.asks ≡ small_book.asks)
insert-IsValid_example =
    insert-IsValid (limit_order buy (pos 100) 6) 50 4 3 (record spare_orders { free_list = 5 ∷ [] })
      (record spare_levels { free_list = 4 ∷ [] }) small_book free_order free_level (omega arith)
      ((omega arith, (omega arith, tt))) small_book-IsValid
