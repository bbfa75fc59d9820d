-- ===== src/Domain/Records.antt =====
-- The records of domain/include/domain: ids.hpp, order.hpp, order_view.hpp and trade.hpp. Padding
-- is left out, and a strong id is its number.
use flux_trade.Prelude.{ℕ}
use flux_trade.Domain.Types.{Side, OrderType, TimeInForce}
use flux_trade.Domain.Ticks.{Price}
use flux_trade.Domain.Units.{Quantity}

pub record OrderKey : Type 0 where
  pub symbol_id : ℕ
  pub order_id : ℕ

-- `flags` is the bit set of order_flags.hpp.
pub record Order : Type 0 where
  pub order_id : ℕ
  pub price : Price
  pub qty : Quantity
  pub seq_num : ℕ
  pub client_timestamp : ℕ
  pub exchange_timestamp : ℕ
  pub client_id : ℕ
  pub account_id : ℕ
  pub symbol_id : ℕ
  pub side : Side
  pub type : OrderType
  pub tif : TimeInForce
  pub flags : ℕ

-- `slot` is the object's address: its index in the pool that it was allocated from. The links
-- `next` and `prev` are the order of the list that the object stands in.
pub record LiveOrder : Type 0 where
  pub slot : ℕ
  pub key : OrderKey
  pub price : Price
  pub remaining_qty : Quantity
  pub priority_seq : ℕ

pub record Trade : Type 0 where
  pub trade_id : ℕ
  pub buy_order_id : ℕ
  pub sell_order_id : ℕ
  pub price : Price
  pub qty : Quantity
  pub timestamp : ℕ
  pub symbol_id : ℕ
