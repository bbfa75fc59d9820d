-- ===== src/Risk/Decisions.antt =====
-- What a decision of RiskEngine::validate does to the account of its order.
use flux_trade.Prelude.{
  ℕ, ◌+◌, ◌<◌, Bool, true, false, List, [], ◌∷◌, ◌++◌, ◌≡◌, refl, ap, sym, ◌∙◌, subst, arith,
  if◌then◌else◌,
}
use flux_trade.Prelude.Words.{u64_mod}
use flux_trade.Domain.{Price, RejectReason}
use flux_trade.Risk.Context.{RiskContext, RiskLimits}
use flux_trade.Risk.Credit
use flux_trade.Risk.Credit.{AccountState, cost_of, account_state, update_on_accept}
use flux_trade.Risk.Funds.{funds, account_state-same, accept_reserves}
use flux_trade.Risk.Gates.{Switches}
use flux_trade.Risk.Pipeline.{
  Stage, PipelineContext, RiskTrace, add_stage, check, run_stages, policies,
}
use flux_trade.Risk.Engine.{RiskEngine, validate}

abbrev Run : Type 0
Run = RejectReason × Bool × PipelineContext × RiskTrace

either_credit :
    (id : ℕ) (ok : Bool) (next stop : Run) (s : AccountState)
    → account_state id next.2.credit ≡ s
    → account_state id stop.2.credit ≡ s
    → account_state id (if ok then next else stop).2.credit ≡ s
either_credit id true next stop s h k = h
either_credit id false next stop s h k = k

-- A run that is accepted went on.
went_on :
    (ok : Bool) (next stop : Run)
    → stop.1 ≡ false
    → (if ok then next else stop).1 ≡ true
    → (ok ≡ true) × (next.1 ≡ true)
went_on true next stop h k = (refl, k)
went_on false next stop h k = absurd (ground arith)

module _ (in_band : Price → Price → Bool) (sw : Switches) (ctx : RiskContext)
    (limits : RiskLimits) where
  -- No stage changes what the credit manager says of the order's account.
  check-credit :
      (stage : Stage) (pc : PipelineContext)
      → account_state ctx.account_id (check in_band sw ctx limits stage pc).1.credit
        ≡ account_state ctx.account_id pc.credit
  unfolding check
  check-credit Stage.kill_switch_stage pc = refl
  check-credit Stage.circuit_breaker_stage pc = refl
  check-credit Stage.duplicate_check pc = refl
  check-credit Stage.rate_limit_stage pc = refl
  check-credit Stage.fat_finger_stage pc = refl
  check-credit Stage.price_band_stage pc = refl
  check-credit Stage.self_trade_stage pc = refl
  check-credit Stage.position_limit pc = refl
  check-credit Stage.credit_limit pc = account_state-same ctx.account_id pc.credit

  run_stages-credit :
      (stages : List Stage) (pc : PipelineContext) (trace : RiskTrace)
      → account_state ctx.account_id (run_stages in_band sw ctx limits stages pc trace).2.credit
        ≡ account_state ctx.account_id pc.credit
  unfolding run_stages
  run_stages-credit [] pc trace = refl
  run_stages-credit (stage ∷ stages) pc trace =
      let (ok, pc') = check in_band sw ctx limits stage pc in
      let next = run_stages-credit stages pc' (add_stage stage ok trace) in
      either_credit ctx.account_id ok _ _ (account_state ctx.account_id pc.credit)
        (next ∙ check-credit stage pc) (check-credit stage pc)

  -- Where the last stage is the credit check, an order that is accepted has passed it.
  accepted_credit :
      (stages : List Stage) (pc : PipelineContext) (trace : RiskTrace)
      → (run_stages in_band sw ctx limits (stages ++ Stage.credit_limit ∷ []) pc trace).1 ≡ true
      → Credit.validate ctx limits (account_state ctx.account_id pc.credit) ≡ true
  unfolding run_stages check
  accepted_credit [] pc trace h = (went_on _ _ _ refl h).0
  accepted_credit (stage ∷ stages) pc trace h =
      let (ok, pc') = check in_band sw ctx limits stage pc in
      let next = accepted_credit stages pc' (add_stage stage ok trace) in
      subst (λ s. Credit.validate ctx limits s ≡ true) (check-credit stage pc)
        (next (went_on ok _ _ refl h).1)

abbrev first_stages : List Stage
first_stages =
    Stage.kill_switch_stage ∷ Stage.circuit_breaker_stage ∷ Stage.duplicate_check
    ∷ Stage.rate_limit_stage ∷ Stage.fat_finger_stage ∷ Stage.price_band_stage
    ∷ Stage.self_trade_stage ∷ Stage.position_limit ∷ []

-- Where the money of the order's account fits in 64 bits and the risk engine accepts the order, the
-- order's cost has moved from the account's buying power to its reserve. The comparison of the price
-- band may be any.
pub accepted_order_is_reserved :
    (in_band : Price → Price → Bool) (ctx : RiskContext) (trace : RiskTrace) (ns : ℕ)
    (e : RiskEngine)
    → let before = account_state ctx.account_id e.context.credit in
      funds before < u64_mod
      → (validate in_band ctx trace ns e).1 ≡ true
      → let after =
          account_state ctx.account_id (validate in_band ctx trace ns e).3.context.credit in
        (after.available_buying_power + cost_of ctx ≡ before.available_buying_power)
        × (after.reserved_capital ≡ before.reserved_capital + cost_of ctx)
unfolding validate
accepted_order_is_reserved in_band ctx trace ns e small h =
    let id = ctx.account_id in
    let pc = (run_stages in_band e.switches ctx e.limits policies e.context trace).2 in
    let kept : account_state id pc.credit ≡ account_state id e.context.credit =
      run_stages-credit in_band e.switches ctx e.limits policies e.context trace in
    let passed = accepted_credit in_band e.switches ctx e.limits first_stages e.context trace h in
    let moved =
      accept_reserves ctx e.limits pc.credit
        (subst (λ s. Credit.validate ctx e.limits s ≡ true) (sym kept) passed)
        (omega (arith, ap funds kept)) in
    let accepted = account_state id (update_on_accept id (cost_of ctx) pc.credit) in
    rw h (
      subst
        (λ (before : AccountState).
          (accepted.available_buying_power + cost_of ctx ≡ before.available_buying_power)
          × (accepted.reserved_capital ≡ before.reserved_capital + cost_of ctx))
        kept moved)

-- Where the risk engine rejects an order, the order's account is as it was.
pub rejected_order_reserves_nothing :
    (in_band : Price → Price → Bool) (ctx : RiskContext) (trace : RiskTrace) (ns : ℕ)
    (e : RiskEngine)
    → (validate in_band ctx trace ns e).1 ≡ false
    → account_state ctx.account_id (validate in_band ctx trace ns e).3.context.credit
      ≡ account_state ctx.account_id e.context.credit
unfolding validate
rejected_order_reserves_nothing in_band ctx trace ns e h =
    rw h (run_stages-credit in_band e.switches ctx e.limits policies e.context trace)
