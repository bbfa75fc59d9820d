-- ===== src/Domain/Types.antt =====
-- The enumerations of domain/include/domain, with the codes that reach a packet.
use flux_trade.Prelude.{ℕ, ◌==◌, if◌then◌else◌}

pub data Side : Type 0 where
  buy sell : Side

-- The side that an order of a side is matched against.
abbrev pub opposite : Side → Side
opposite buy = sell
opposite sell = buy

pub data OrderType : Type 0 where
  limit market stop : OrderType

pub data TimeInForce : Type 0 where
  gtc ioc fok : TimeInForce
  unnamed : ℕ → TimeInForce

-- The cast of a byte. A value that no enumerator has stays what it is.
abbrev pub time_in_force_of : ℕ → TimeInForce
time_in_force_of n =
    if n == 1
    then TimeInForce.gtc
    else if n == 2
    then TimeInForce.ioc
    else if n == 3
    then TimeInForce.fok
    else TimeInForce.unnamed n

pub data ExecutionType : Type 0 where
  new trade cancel reject : ExecutionType

pub data RejectReason : Type 0 where
  none invalid_price invalid_quantity invalid_symbol : RejectReason
  duplicate_order order_not_found risk_limit_exceeded : RejectReason

abbrev pub execution_code : ExecutionType → ℕ
execution_code ExecutionType.new = 1
execution_code ExecutionType.trade = 2
execution_code ExecutionType.cancel = 3
execution_code ExecutionType.reject = 4

abbrev pub reason_code : RejectReason → ℕ
reason_code RejectReason.none = 0
reason_code RejectReason.invalid_price = 1
reason_code RejectReason.invalid_quantity = 2
reason_code RejectReason.invalid_symbol = 3
reason_code RejectReason.duplicate_order = 4
reason_code RejectReason.order_not_found = 5
reason_code RejectReason.risk_limit_exceeded = 6
