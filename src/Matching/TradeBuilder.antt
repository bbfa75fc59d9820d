-- ===== src/Matching/TradeBuilder.antt =====
-- matching/src/trade_builder.cpp: the trades and execution reports of each event.
use flux_trade.Prelude.{ℕ}
use flux_trade.Domain.{
  Side, buy, sell, Price, Quantity, RejectReason, ExecutionType, Order, LiveOrder, Trade,
}
use flux_trade.Matching.Context.{ExecutionReport, ExecutionContext, add_trade, add_report}

-- The order ids of a trade's two sides, by the side of the aggressive order.
abbrev pub buyer : Side → ℕ → ℕ → ℕ
buyer buy aggressive resting = aggressive
buyer sell aggressive resting = resting

abbrev pub seller : Side → ℕ → ℕ → ℕ
seller buy aggressive resting = resting
seller sell aggressive resting = aggressive

unfoldable pub trade_of : ℕ → Order → LiveOrder → Quantity → Price → ℕ → Trade
trade_of trade_seq aggressive resting match_qty match_price timestamp = record {
  trade_id = trade_seq;
  buy_order_id = buyer aggressive.side aggressive.order_id resting.key.order_id;
  sell_order_id = seller aggressive.side aggressive.order_id resting.key.order_id;
  price = match_price;
  qty = match_qty;
  timestamp = timestamp;
  symbol_id = aggressive.symbol_id;
}

unfoldable pub taker_report : ℕ → Order → Quantity → Price → Quantity → ℕ → ExecutionReport
taker_report exec_seq aggressive match_qty match_price remaining timestamp = record {
  exec_id = exec_seq;
  order_id = aggressive.order_id;
  price = match_price;
  last_qty = match_qty;
  remaining_qty = remaining;
  timestamp = timestamp;
  client_id = aggressive.client_id;
  account_id = aggressive.account_id;
  symbol_id = aggressive.symbol_id;
  reject_reason = RejectReason.none;
  exec_type = ExecutionType.trade;
}

-- The maker's client and account are written as 0.
unfoldable pub maker_report : ℕ → LiveOrder → Quantity → Price → Quantity → ℕ → ExecutionReport
maker_report exec_seq resting match_qty match_price remaining timestamp = record {
  exec_id = exec_seq;
  order_id = resting.key.order_id;
  price = match_price;
  last_qty = match_qty;
  remaining_qty = remaining;
  timestamp = timestamp;
  client_id = 0;
  account_id = 0;
  symbol_id = resting.key.symbol_id;
  reject_reason = RejectReason.none;
  exec_type = ExecutionType.trade;
}

unfoldable pub build_match :
    ℕ
    → ℕ
    → ℕ
    → Order
    → LiveOrder
    → Quantity
    → Price
    → Quantity
    → Quantity
    → ℕ
    → ExecutionContext
    → ExecutionContext
build_match trade_seq taker_seq maker_seq aggressive resting qty price taker_left maker_left ts
      ctx =
    add_report (maker_report maker_seq resting qty price maker_left ts) (
      add_report (taker_report taker_seq aggressive qty price taker_left ts)
        (add_trade (trade_of trade_seq aggressive resting qty price ts) ctx))

-- The report that an order's own fields fill in.
abbrev own_report : ℕ → Order → Quantity → ℕ → RejectReason → ExecutionType → ExecutionReport
own_report exec_seq order remaining timestamp reason type = record {
  exec_id = exec_seq;
  order_id = order.order_id;
  price = order.price;
  last_qty = 0;
  remaining_qty = remaining;
  timestamp = timestamp;
  client_id = order.client_id;
  account_id = order.account_id;
  symbol_id = order.symbol_id;
  reject_reason = reason;
  exec_type = type;
}

unfoldable pub build_ack : ℕ → Order → ℕ → ExecutionContext → ExecutionContext
build_ack exec_seq order timestamp ctx =
    add_report (own_report exec_seq order order.qty timestamp RejectReason.none ExecutionType.new)
      ctx

unfoldable pub build_cancel : ℕ → LiveOrder → ℕ → ℕ → ℕ → ℕ → ExecutionContext → ExecutionContext
build_cancel exec_seq order client_id account_id symbol_id timestamp ctx =
    add_report
      (record {
        exec_id = exec_seq;
        order_id = order.key.order_id;
        price = order.price;
        last_qty = 0;
        remaining_qty = 0;
        timestamp = timestamp;
        client_id = client_id;
        account_id = account_id;
        symbol_id = symbol_id;
        reject_reason = RejectReason.none;
        exec_type = ExecutionType.cancel;
      })
      ctx

unfoldable pub build_reject : ℕ → Order → RejectReason → ℕ → ExecutionContext → ExecutionContext
build_reject exec_seq order reason timestamp ctx =
    add_report (own_report exec_seq order 0 timestamp reason ExecutionType.reject) ctx

-- The quantity that expires is passed and not reported.
unfoldable pub build_expiration : ℕ → Order → Quantity → ℕ → ExecutionContext → ExecutionContext
build_expiration exec_seq order expired_qty timestamp ctx =
    add_report (own_report exec_seq order 0 timestamp RejectReason.none ExecutionType.cancel) ctx
