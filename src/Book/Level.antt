-- ===== src/Book/Level.antt =====
-- matching/order_book/intrusive_list.hpp and price_level.hpp: the orders of one price, oldest first.
-- A list of nodes in link order stands for the doubly linked list; a node is found by its address.
use flux_trade.Prelude.{
  ℕ, Bool, true, false, Option, none, some, List, [], ◌∷◌, ◌++◌, ◌==◌, if◌then◌else◌,
}
use flux_trade.Prelude.Words.{add32, sub32}
use flux_trade.Domain.{Price, Quantity, LiveOrder, qty_add, qty_sub}

pub record PriceLevelNode : Type 0 where
  pub slot : ℕ
  pub price : Price
  pub total_qty : Quantity
  pub order_count : ℕ
  pub orders : List LiveOrder

abbrev pub append : LiveOrder → List LiveOrder → List LiveOrder
append order orders = orders ++ order ∷ []

-- Reads the object at an address, if it stands in the list.
unfoldable pub find_slot : ℕ → List LiveOrder → Option LiveOrder
find_slot slot [] = none
find_slot slot (o ∷ os) = if o.slot == slot then some o else find_slot slot os

-- Unlinks the object at an address. The caller has seen that it stands in the list.
unfoldable pub remove : ℕ → List LiveOrder → List LiveOrder
remove slot [] = []
remove slot (o ∷ os) = if o.slot == slot then os else o ∷ remove slot os

-- Writes the object at an address.
unfoldable pub store : LiveOrder → List LiveOrder → List LiveOrder
store order [] = []
store order (o ∷ os) = if o.slot == order.slot then order ∷ os else o ∷ store order os

abbrev pub is_empty : List LiveOrder → Bool
is_empty [] = true
is_empty (o ∷ os) = false

-- `insert`, step 4: the order joins the tail.
unfoldable pub join : LiveOrder → PriceLevelNode → PriceLevelNode
join order level = record level {
  orders = append order level.orders;
  total_qty = qty_add level.total_qty order.remaining_qty;
  order_count = add32 level.order_count 1;
}

-- An order leaves the level with the quantity `qty`.
unfoldable pub leave : LiveOrder → Quantity → PriceLevelNode → PriceLevelNode
leave order qty level = record level {
  orders = remove order.slot level.orders;
  total_qty = qty_sub level.total_qty qty;
  order_count = sub32 level.order_count 1;
}
