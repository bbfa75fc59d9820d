-- ===== src/Risk/Funds.antt =====
-- Where an account's money goes: from the buying power to the reserve, and from there to use.
use flux_trade.Prelude.{
  ℕ, ◌+◌, ◌≤◌, ◌<◌, ◌%◌, true, List, [], ◌∷◌, ◌≡◌, ◌≢◌, refl, ap, sym, ◌∙◌, arith, ◌==◌,
  if◌then◌else◌, Bool-cases, inl, inr,
}
use flux_trade.Prelude.Words.{u64_mod}
use flux_trade.Common.Table.{put_same, put_other}
use flux_trade.Risk.Context.{RiskContext, RiskLimits}
use flux_trade.Risk.Credit.{
  AccountState, max_accounts, Accounts, cost_of, validate, account_state, write_account, reserve,
  pay, spend, free, update_on_accept, update_on_fill, update_on_cancel,
}

abbrev pub funds : AccountState → ℕ
funds s = s.available_buying_power + s.reserved_capital + s.used_buying_power

pub data CreditOp : Type 0 where
  accept fill cancel : ℕ → CreditOp

abbrev pub apply : ℕ → CreditOp → Accounts → Accounts
apply id (CreditOp.accept cost) accounts = update_on_accept id cost accounts
apply id (CreditOp.fill cost) accounts = update_on_fill id cost accounts
apply id (CreditOp.cancel cost) accounts = update_on_cancel id cost accounts

-- A slot without an id belongs to account 0.
abbrev Named : ℕ → AccountState → Type 0
Named id s = (s.account_id ≡ 0) → (id ≡ 0)

same_slot :
    (id : ℕ) (s : AccountState) (accounts : Accounts)
    → write_account id s accounts (id % max_accounts) ≡ s
same_slot id s accounts = put_same (id % max_accounts) s accounts

account_state-write :
    (id : ℕ) (s : AccountState) (accounts : Accounts)
    → Named id s
    → account_state id (write_account id s accounts) ≡ s
unfolding account_state
account_state-write id s accounts h = elim (Bool-cases (s.account_id == 0)) [
  | inl e ↦
      let none : s.account_id ≡ 0 = ground arith in
      rw (same_slot id s accounts, e) (ap (λ k. record s { account_id = k }) (h none ∙ sym none))
  | inr e ↦ rw (same_slot id s accounts, e) refl
]

account_state-Named : (id : ℕ) (accounts : Accounts) → Named id (account_state id accounts)
unfolding account_state
account_state-Named id accounts h = ground arith

validated_fits :
    (ctx : RiskContext) (limits : RiskLimits) (s : AccountState)
    → validate ctx limits s ≡ true
    → cost_of ctx ≤ s.available_buying_power
unfolding validate
validated_fits ctx limits s h = ground arith

reserve_keeps : (cost : ℕ) (s : AccountState) → funds s < u64_mod → funds (reserve cost s) ≡ funds s
unfolding reserve
reserve_keeps cost s h = ground arith

free_keeps : (cost : ℕ) (s : AccountState) → funds s < u64_mod → funds (free cost s) ≡ funds s
unfolding free
free_keeps cost s h = ground arith

spend_keeps :
    (cost : ℕ) (s : AccountState)
    → funds s < u64_mod
    → cost ≤ s.available_buying_power + s.reserved_capital
    → funds (spend cost (pay cost s)) ≡ funds s
unfolding pay
spend_keeps cost s h k = ground arith

reserve_fits :
    (cost : ℕ) (s : AccountState)
    → funds s < u64_mod
    → cost ≤ s.available_buying_power
    → ((reserve cost s).available_buying_power + cost ≡ s.available_buying_power)
      × ((reserve cost s).reserved_capital ≡ s.reserved_capital + cost)
unfolding reserve
reserve_fits cost s h k = ground arith

free-reserve :
    (cost : ℕ) (s : AccountState)
    → funds s < u64_mod
    → cost ≤ s.available_buying_power
    → free cost (reserve cost s) ≡ s
unfolding free reserve
free-reserve cost s h k = ground arith

reserve-Named : (id cost : ℕ) (s : AccountState) → Named id s → Named id (reserve cost s)
unfolding reserve
reserve-Named id cost s n h = n (ground arith)

free-Named : (id cost : ℕ) (s : AccountState) → Named id s → Named id (free cost s)
unfolding free
free-Named id cost s n h = n (ground arith)

spend-Named : (id cost : ℕ) (s : AccountState) → Named id s → Named id (spend cost (pay cost s))
unfolding pay
spend-Named id cost s n h = n (ground arith)

-- What an operation makes of the account that it is for.
abbrev pub on_account : CreditOp → AccountState → AccountState
on_account (CreditOp.accept cost) s = reserve cost s
on_account (CreditOp.fill cost) s = spend cost (pay cost s)
on_account (CreditOp.cancel cost) s = free cost s

on_account-Named :
    (id : ℕ) (op : CreditOp) (s : AccountState) → Named id s → Named id (on_account op s)
on_account-Named id (CreditOp.accept cost) s n = reserve-Named id cost s n
on_account-Named id (CreditOp.fill cost) s n = spend-Named id cost s n
on_account-Named id (CreditOp.cancel cost) s n = free-Named id cost s n

apply_write :
    (id : ℕ) (op : CreditOp) (accounts : Accounts)
    → apply id op accounts ≡ write_account id (on_account op (account_state id accounts)) accounts
unfolding update_on_accept update_on_fill update_on_cancel
apply_write id (CreditOp.accept cost) accounts = refl
apply_write id (CreditOp.fill cost) accounts = refl
apply_write id (CreditOp.cancel cost) accounts = refl

account_state-apply :
    (id : ℕ) (op : CreditOp) (accounts : Accounts)
    → account_state id (apply id op accounts) ≡ on_account op (account_state id accounts)
account_state-apply id op accounts =
    ap (account_state id) (apply_write id op accounts)
    ∙ account_state-write id (on_account op (account_state id accounts)) accounts
        (on_account-Named id op (account_state id accounts) (account_state-Named id accounts))

-- A fill is covered by the account's buying power and reserve; nothing is asked of the others.
abbrev pub Covered : CreditOp → AccountState → Type 0
Covered (CreditOp.accept cost) s = Unit {0}
Covered (CreditOp.fill cost) s = cost ≤ s.available_buying_power + s.reserved_capital
Covered (CreditOp.cancel cost) s = Unit {0}

on_account_keeps :
    (op : CreditOp) (s : AccountState)
    → funds s < u64_mod
    → Covered op s
    → funds (on_account op s) ≡ funds s
on_account_keeps (CreditOp.accept cost) s h c = reserve_keeps cost s h
on_account_keeps (CreditOp.fill cost) s h c = spend_keeps cost s h c
on_account_keeps (CreditOp.cancel cost) s h c = free_keeps cost s h

abbrev pub run : ℕ → List CreditOp → Accounts → Accounts
run id [] accounts = accounts
run id (op ∷ ops) accounts = run id ops (apply id op accounts)

-- Every fill of a run is covered when its turn comes.
abbrev pub AllCovered : ℕ → List CreditOp → Accounts → Type 0
AllCovered id [] accounts = Unit {0}
AllCovered id (op ∷ ops) accounts =
    Covered op (account_state id accounts) × AllCovered id ops (apply id op accounts)

-- Through any run of accepts, fills and cancels of an account whose money fits in 64 bits, with every
-- fill covered by the buying power and the reserve of its time, the account's buying power, reserve and
-- used power add up to what they did before: no update creates or loses money.
pub run_keeps_funds :
    (id : ℕ) (ops : List CreditOp) (accounts : Accounts)
    → funds (account_state id accounts) < u64_mod
    → AllCovered id ops accounts
    → funds (account_state id (run id ops accounts)) ≡ funds (account_state id accounts)
run_keeps_funds id [] accounts h c = refl
run_keeps_funds id (op ∷ ops) accounts h c =
    let step : funds (account_state id (apply id op accounts)) ≡ funds (account_state id accounts) =
      ap funds (account_state-apply id op accounts)
      ∙ on_account_keeps op (account_state id accounts) h c.0 in
    run_keeps_funds id ops (apply id op accounts) (omega arith) c.1 ∙ step

-- A run on one account leaves the slot of every account whose id differs modulo 1024 as it was.
pub run_spares :
    (id : ℕ) (ops : List CreditOp) (accounts : Accounts) (other : ℕ)
    → other % max_accounts ≢ id % max_accounts
    → account_state other (run id ops accounts) ≡ account_state other accounts
unfolding account_state
run_spares id [] accounts other h = refl
run_spares id (op ∷ ops) accounts other h =
    let spared : apply id op accounts (other % max_accounts) ≡ accounts (other % max_accounts) =
      ap (λ (t : Accounts). t (other % max_accounts)) (apply_write id op accounts)
      ∙ put_other (id % max_accounts) _ accounts (other % max_accounts) h in
    run_spares id ops (apply id op accounts) other h
    ∙ ap (λ (s : AccountState). if s.account_id == 0 then record s { account_id = other } else s)
        spared

pub account_state-same :
    (id : ℕ) (accounts : Accounts)
    → account_state id (write_account id (account_state id accounts) accounts)
      ≡ account_state id accounts
account_state-same id accounts =
    account_state-write id (account_state id accounts) accounts (account_state-Named id accounts)

-- A validated order is reserved in full.
pub accept_reserves :
    (ctx : RiskContext) (limits : RiskLimits) (accounts : Accounts)
    → let id = ctx.account_id in
      let cost = cost_of ctx in
      let before = account_state id accounts in
      validate ctx limits before ≡ true
      → funds before < u64_mod
      → let accepted = update_on_accept id cost accounts in
        ((account_state id accepted).available_buying_power + cost ≡ before.available_buying_power)
        × ((account_state id accepted).reserved_capital ≡ before.reserved_capital + cost)
accept_reserves ctx limits accounts h small =
    let id = ctx.account_id in
    let cost = cost_of ctx in
    let before = account_state id accounts in
    let (taken, held) = reserve_fits cost before small (validated_fits ctx limits before h) in
    let accepted = account_state-apply id (CreditOp.accept cost) accounts in
    (
      ap (λ (s : AccountState). s.available_buying_power + cost) accepted ∙ taken,
      ap (λ (s : AccountState). s.reserved_capital) accepted ∙ held,
    )

-- An order that the credit check passes at its account's state is reserved in full when it is
-- accepted, and cancelling it for the same cost gives the account back the state it had, where the
-- account's money fits in 64 bits.
pub cancel-accept :
    (ctx : RiskContext) (limits : RiskLimits) (accounts : Accounts)
    → let id = ctx.account_id in
      let cost = cost_of ctx in
      let before = account_state id accounts in
      validate ctx limits before ≡ true
      → funds before < u64_mod
      → let accepted = update_on_accept id cost accounts in
        ((account_state id accepted).available_buying_power + cost ≡ before.available_buying_power)
        × ((account_state id accepted).reserved_capital ≡ before.reserved_capital + cost)
        × (account_state id (update_on_cancel id cost accepted) ≡ before)
cancel-accept ctx limits accounts h small =
    let id = ctx.account_id in
    let cost = cost_of ctx in
    let before = account_state id accounts in
    let (taken, held) = accept_reserves ctx limits accounts h small in
    (
      taken,
      held,
      account_state-apply id (CreditOp.cancel cost) (update_on_accept id cost accounts)
          ∙ ap (free cost) (account_state-apply id (CreditOp.accept cost) accounts)
          ∙ free-reserve cost before small (validated_fits ctx limits before h),
    )
