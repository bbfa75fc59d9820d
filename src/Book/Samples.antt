-- ===== src/Book/Samples.antt =====
-- Books and orders that the tests share.
use flux_trade.Prelude.{ℕ, [], ◌∷◌, refl, arith}
use flux_trade.Prelude.Int.{pos}
use flux_trade.Domain.{Side, OrderType, TimeInForce, Price, Order, LiveOrder}
use flux_trade.Common.ObjectPool.{ObjectPool}
use flux_trade.Book.Level.{PriceLevelNode}
use flux_trade.Book.State.{LimitOrderBook}
use flux_trade.Book.Valid.{IsValid}
use flux_trade.Book.Room.{Room}

abbrev resting : ℕ → ℕ → Price → ℕ → LiveOrder
resting slot id price qty = record {
  slot = slot;
  key = record { symbol_id = 1; order_id = id };
  price = price;
  remaining_qty = qty;
  priority_seq = slot;
}

abbrev pub first_ask : LiveOrder
first_ask = resting 0 11 (pos 101) 5

abbrev pub second_ask : LiveOrder
second_ask = resting 1 12 (pos 101) 3

abbrev pub far_ask : LiveOrder
far_ask = resting 2 13 (pos 105) 7

abbrev pub only_bid : LiveOrder
only_bid = resting 3 14 (pos 99) 4

abbrev pub near_asks : PriceLevelNode
near_asks = record {
  slot = 0;
  price = pos 101;
  total_qty = 8;
  order_count = 2;
  orders = first_ask ∷ second_ask ∷ [];
}

abbrev pub far_asks : PriceLevelNode
far_asks = record {
  slot = 1;
  price = pos 105;
  total_qty = 7;
  order_count = 1;
  orders = far_ask ∷ [];
}

abbrev pub near_bids : PriceLevelNode
near_bids = record {
  slot = 2;
  price = pos 99;
  total_qty = 4;
  order_count = 1;
  orders = only_bid ∷ [];
}

abbrev pub spare_orders : ObjectPool
spare_orders = record { capacity = 10240; free_list = 4 ∷ 5 ∷ [] }

abbrev pub spare_levels : ObjectPool
spare_levels = record { capacity = 1024; free_list = 3 ∷ 4 ∷ [] }

-- Asks of 5 and 3 at 101 and of 7 at 105, and a bid of 4 at 99.
abbrev pub small_book : LimitOrderBook
small_book = record {
  bids = near_bids ∷ [];
  asks = near_asks ∷ far_asks ∷ [];
  lookup = (11, 0) ∷ (12, 1) ∷ (13, 2) ∷ (14, 3) ∷ [];
  level_pool = spare_levels;
  order_pool = spare_orders;
  events = [];
}

pub small_book-IsValid : IsValid small_book
small_book-IsValid = record {
  bids = record {
    ordered = (tt, tt);
    levels = (
      record {
        sums = record { quantity = refl; count = refl };
        filled = refl;
        resting = ((refl, omega arith), tt);
      },
      tt,
    );
  };
  asks = record {
    ordered = ((refl, tt), (tt, tt));
    levels = (
      record {
        sums = record { quantity = refl; count = refl };
        filled = refl;
        resting = ((refl, omega arith), ((refl, omega arith), tt));
      },
      (
        record {
          sums = record { quantity = refl; count = refl };
          filled = refl;
          resting = ((refl, omega arith), tt);
        },
        tt,
      ),
    );
  };
  uncrossed = ((omega arith, (omega arith, tt)), tt);
}

pub small_book-Room : Room small_book
small_book-Room = record { orders = refl; levels = refl }

-- An order of some side and price for some quantity.
abbrev pub limit_order : Side → Price → ℕ → Order
limit_order side price qty = record {
  order_id = 20;
  price = price;
  qty = qty;
  seq_num = 50;
  client_timestamp = 0;
  exchange_timestamp = 0;
  client_id = 7;
  account_id = 8;
  symbol_id = 1;
  side = side;
  type = OrderType.limit;
  tif = TimeInForce.gtc;
  flags = 0;
}
