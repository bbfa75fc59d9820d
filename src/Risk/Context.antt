-- ===== src/Risk/Context.antt =====
-- risk/include/risk/risk_context.hpp and risk_limits.hpp. The tolerance of the price band is a double
-- and is left out, with the band that alone reads it.
use flux_trade.Prelude.{ℕ, Bool}
use flux_trade.Prelude.Int.{ℤ}
use flux_trade.Domain.{Side, OrderType, Price, Quantity}

pub record RiskContext : Type 0 where
  pub order_id : ℕ
  pub price : Price
  pub qty : Quantity
  pub timestamp : ℕ
  pub reference_price : Price
  pub client_order_id : ℕ
  pub symbol_id : ℕ
  pub client_id : ℕ
  pub account_id : ℕ
  pub side : Side
  pub type : OrderType

pub data SelfTradePreventionMode : Type 0 where
  cancel_new cancel_resting cancel_both allow : SelfTradePreventionMode

pub record RiskLimits : Type 0 where
  pub max_credit_limit : ℕ
  pub max_daily_exposure : ℕ
  pub max_order_qty : ℕ
  pub max_order_price : ℤ
  pub stp_mode : SelfTradePreventionMode
  pub max_orders_per_sec : ℕ
  pub kill_switch_active : Bool
