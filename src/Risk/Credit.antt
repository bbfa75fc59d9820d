-- ===== src/Risk/Credit.antt =====
-- risk/include/risk/account_state.hpp, credit_manager.hpp and risk/src/credit_manager.cpp. The array
-- of 1024 accounts is a function of the index.
use flux_trade.Prelude.{ℕ, ◌%◌, ◌/◌, Bool, true, false, ◌&&◌, ltb, leb, ◌==◌, if◌then◌else◌}
use flux_trade.Prelude.Words.{add64, sub64, mul64, to_u64}
use flux_trade.Common.Table.{put}
use flux_trade.Risk.Context.{RiskContext, RiskLimits}

pub record AccountState : Type 0 where
  pub available_buying_power : ℕ
  pub used_buying_power : ℕ
  pub reserved_capital : ℕ
  pub daily_exposure : ℕ
  pub worst_case_loss : ℕ
  pub open_margin_requirement : ℕ
  pub collateral_value : ℕ
  pub account_id : ℕ

abbrev pub max_accounts : ℕ
max_accounts = 1024

abbrev pub Accounts : Type 0
Accounts = ℕ → AccountState

-- The price in ticks times the quantity, scaled. The product is one of uint64_t.
abbrev pub cost_of : RiskContext → ℕ
cost_of ctx = mul64 (to_u64 ctx.price) ctx.qty / 1000000

unfoldable pub validate : RiskContext → RiskLimits → AccountState → Bool
validate ctx limits account =
    if ltb account.available_buying_power (cost_of ctx)
    then false
    else if ltb 0 limits.max_daily_exposure
        && ltb limits.max_daily_exposure (add64 account.daily_exposure (cost_of ctx))
    then false
    else true

-- The state of an account, which takes the slot's id if the slot has none.
unfoldable pub account_state : ℕ → Accounts → AccountState
account_state id accounts =
    let state = accounts (id % max_accounts) in
    if state.account_id == 0 then record state { account_id = id } else state

abbrev pub write_account : ℕ → AccountState → Accounts → Accounts
write_account id state accounts = put (id % max_accounts) state accounts

-- What each update does to the account's state.
unfoldable pub reserve : ℕ → AccountState → AccountState
reserve cost s =
    if leb cost s.available_buying_power
    then record s {
      available_buying_power = sub64 s.available_buying_power cost;
      reserved_capital = add64 s.reserved_capital cost;
    }
    else s

-- The reserve pays first, and the buying power pays the remainder if it suffices for it.
unfoldable pub pay : ℕ → AccountState → AccountState
pay cost s =
    if leb cost s.reserved_capital
    then record s { reserved_capital = sub64 s.reserved_capital cost }
    else let remainder = sub64 cost s.reserved_capital in
      if leb remainder s.available_buying_power
      then record s {
        reserved_capital = 0;
        available_buying_power = sub64 s.available_buying_power remainder;
      }
      else record s { reserved_capital = 0 }

abbrev pub spend : ℕ → AccountState → AccountState
spend cost s = record s {
  used_buying_power = add64 s.used_buying_power cost;
  daily_exposure = add64 s.daily_exposure cost;
}

unfoldable pub free : ℕ → AccountState → AccountState
free cost s =
    if leb cost s.reserved_capital
    then record s {
      reserved_capital = sub64 s.reserved_capital cost;
      available_buying_power = add64 s.available_buying_power cost;
    }
    else s

unfoldable pub update_on_accept : ℕ → ℕ → Accounts → Accounts
update_on_accept id cost accounts =
    write_account id (reserve cost (account_state id accounts)) accounts

unfoldable pub update_on_fill : ℕ → ℕ → Accounts → Accounts
update_on_fill id cost accounts =
    write_account id (spend cost (pay cost (account_state id accounts))) accounts

unfoldable pub update_on_cancel : ℕ → ℕ → Accounts → Accounts
update_on_cancel id cost accounts =
    write_account id (free cost (account_state id accounts)) accounts

unfoldable pub reset : Accounts
reset i = record {
  available_buying_power = 1000000000000000;
  used_buying_power = 0;
  reserved_capital = 0;
  daily_exposure = 0;
  worst_case_loss = 0;
  open_margin_requirement = 0;
  collateral_value = 0;
  account_id = i;
}
