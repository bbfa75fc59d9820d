-- ===== src/Gateway/Commands.antt =====
-- gateway/include/gateway/order_command.hpp and sequence_manager.hpp.
use flux_trade.Prelude.{ℕ}
use flux_trade.Prelude.Int.{ℤ, pos, negsuc}
use flux_trade.Prelude.Words.{add64}
use flux_trade.Domain.{Side, OrderType, TimeInForce, Price, Quantity}

pub data CommandType : Type 0 where
  new_order cancel_order replace_order : CommandType

pub record OrderCommand : Type 0 where
  pub type : CommandType
  pub sequence : ℕ
  pub timestamp : ℕ
  pub client_order_id : ℕ
  pub orig_client_order_id : ℕ
  pub symbol_id : ℕ
  pub account_id : ℕ
  pub price : Price
  pub qty : Quantity
  pub side : Side
  pub order_type : OrderType
  pub tif : TimeInForce
  pub conn_id : ℤ

-- The defaults of its fields.
abbrev pub blank_command : OrderCommand
blank_command = record {
  type = CommandType.new_order;
  sequence = 0;
  timestamp = 0;
  client_order_id = 0;
  orig_client_order_id = 0;
  symbol_id = 0;
  account_id = 0;
  price = pos 0;
  qty = 0;
  side = Side.buy;
  order_type = OrderType.limit;
  tif = TimeInForce.gtc;
  conn_id = negsuc 0;
}

-- SequenceManager: the number that the next command gets, and the one after.
abbrev pub first_sequence : ℕ
first_sequence = 1

abbrev pub next_sequence : ℕ → ℕ × ℕ
next_sequence seq = (seq, add64 seq 1)
