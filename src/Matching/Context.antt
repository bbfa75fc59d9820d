-- ===== src/Matching/Context.antt =====
-- matching/include/matching/execution_report.hpp, execution_context.hpp and matching_result.hpp. The
-- first `trade_count` trades and `report_count` reports of the arrays are lists here.
use flux_trade.Prelude.{ℕ, List, [], ◌∷◌, ◌++◌, leb, if◌then◌else◌, length}
use flux_trade.Domain.{Price, Quantity, RejectReason, ExecutionType, Trade}

pub record ExecutionReport : Type 0 where
  pub exec_id : ℕ
  pub order_id : ℕ
  pub price : Price
  pub last_qty : Quantity
  pub remaining_qty : Quantity
  pub timestamp : ℕ
  pub client_id : ℕ
  pub account_id : ℕ
  pub symbol_id : ℕ
  pub reject_reason : RejectReason
  pub exec_type : ExecutionType

pub record ExecutionContext : Type 0 where
  pub trades : List Trade
  pub reports : List ExecutionReport

abbrev pub max_trades : ℕ
max_trades = 128

abbrev pub max_reports : ℕ
max_reports = 256

abbrev pub reset : ExecutionContext → ExecutionContext
reset ctx = record { trades = []; reports = [] }

-- A full array takes no more.
unfoldable pub push {ℓ} : {A : Type ℓ} → ℕ → A → List A → List A
push capacity a xs = if leb capacity (length xs) then xs else xs ++ a ∷ []

-- add_trade, with the fields that its caller writes through the pointer.
abbrev pub add_trade : Trade → ExecutionContext → ExecutionContext
add_trade t ctx = record ctx { trades = push max_trades t ctx.trades }

abbrev pub add_report : ExecutionReport → ExecutionContext → ExecutionContext
add_report r ctx = record ctx { reports = push max_reports r ctx.reports }

pub data MatchingStatus : Type 0 where
  success partially_filled filled rejected cancelled modified expired : MatchingStatus

pub record MatchingResult : Type 0 where
  pub status : MatchingStatus
  pub trades_generated : ℕ
