-- ===== src/Risk/Rejections.antt =====
-- What RiskEngine::validate says of an order that it rejects, and what it counts.
use flux_trade.Prelude.{
  ℕ, ◌+◌, ◌<◌, ◌≤◌, Bool, true, false, List, [], ◌∷◌, ◌++◌, ◌≡◌, refl, ap, ap₂, sym, ◌∙◌, subst,
  arith, map, length, length-append, append_assoc, if◌then◌else◌,
}
use flux_trade.Prelude.Words.{add64}
use flux_trade.Domain.{Price, RejectReason}
use flux_trade.Matching.Context.{push}
use flux_trade.Risk.Context.{RiskContext, RiskLimits}
use flux_trade.Risk.Gates.{Switches}
use flux_trade.Risk.Pipeline.{
  Stage, PipelineContext, RiskTrace, add_stage, check, run_stages, policies, reject_reason,
}
use flux_trade.Risk.Engine.{
  RiskStatistics, RiskEngine, validate, count_reject, count_first, count_stage, record_risk_latency,
}

abbrev pub passed : Stage → Stage × Bool
passed stage = (stage, true)

-- One rejection more by a stage.
abbrev pub counted : Stage → RiskStatistics → RiskStatistics
counted Stage.kill_switch_stage s = record s { kill_switch_rejects = add64 s.kill_switch_rejects 1 }
counted Stage.circuit_breaker_stage s = record s {
  circuit_breaker_rejects = add64 s.circuit_breaker_rejects 1;
}
counted Stage.duplicate_check s = record s { duplicate_rejects = add64 s.duplicate_rejects 1 }
counted Stage.rate_limit_stage s = record s { rate_limit_rejects = add64 s.rate_limit_rejects 1 }
counted Stage.fat_finger_stage s = record s { fat_finger_rejects = add64 s.fat_finger_rejects 1 }
counted Stage.price_band_stage s = record s { price_band_rejects = add64 s.price_band_rejects 1 }
counted Stage.self_trade_stage s = record s { stp_rejects = add64 s.stp_rejects 1 }
counted Stage.position_limit s = record s { position_rejects = add64 s.position_rejects 1 }
counted Stage.credit_limit s = record s { credit_rejects = add64 s.credit_rejects 1 }

abbrev trace_to : List Stage → Stage → RiskTrace
trace_to before stage = map passed before ++ (stage, false) ∷ []

length-passed : (stages : List Stage) → length (map passed stages) ≡ length stages
length-passed [] = refl
length-passed (stage ∷ stages) = omega (arith, length-passed stages)

map-passed_snoc :
    (stages : List Stage) (stage : Stage)
    → map passed stages ++ (stage, true) ∷ [] ≡ map passed (stages ++ stage ∷ [])
map-passed_snoc [] stage = refl
map-passed_snoc (x ∷ stages) stage = ap (λ t. (x, true) ∷ t) (map-passed_snoc stages stage)

add_stage-room :
    (stage : Stage) (ok : Bool) (before : List Stage)
    → length before < 16
    → add_stage stage ok (map passed before) ≡ map passed before ++ (stage, ok) ∷ []
unfolding push
add_stage-room stage ok before h = ground (arith, length-passed before)

count_first-trace_to :
    (before : List Stage) (stage : Stage) (s : RiskStatistics)
    → count_first (trace_to before stage) s ≡ count_stage stage s
unfolding count_first
count_first-trace_to [] stage s = refl
count_first-trace_to (x ∷ before) stage s = count_first-trace_to before stage s

-- Some stages share a reason and are told apart by the trace; the others are by their reason.
count_reject-counted :
    (before : List Stage) (stage : Stage) (s : RiskStatistics)
    → count_reject (reject_reason stage) (trace_to before stage) s ≡ counted stage s
unfolding count_reject count_stage
count_reject-counted before Stage.kill_switch_stage s =
    count_first-trace_to before Stage.kill_switch_stage s
count_reject-counted before Stage.circuit_breaker_stage s =
    count_first-trace_to before Stage.circuit_breaker_stage s
count_reject-counted before Stage.duplicate_check s = refl
count_reject-counted before Stage.rate_limit_stage s =
    count_first-trace_to before Stage.rate_limit_stage s
count_reject-counted before Stage.fat_finger_stage s = refl
count_reject-counted before Stage.price_band_stage s = refl
count_reject-counted before Stage.self_trade_stage s =
    count_first-trace_to before Stage.self_trade_stage s
count_reject-counted before Stage.position_limit s =
    count_first-trace_to before Stage.position_limit s
count_reject-counted before Stage.credit_limit s = count_first-trace_to before Stage.credit_limit s

abbrev Run : Type 0
Run = RejectReason × Bool × PipelineContext × RiskTrace

-- A run that has stopped at one of these stages, those before it having passed.
abbrev StoppedAt : List Stage → Run → Type 0
StoppedAt stages run =
    (before : List Stage) × (stage : Stage) × (after : List Stage) × (stages
      ≡ before ++ stage ∷ after)
    × (run.3 ≡ trace_to before stage)
    × (run.0 ≡ reject_reason stage)

either_stops :
    (ok : Bool) (next stop : Run) (stages : List Stage)
    → (ok ≡ true → next.1 ≡ false → StoppedAt stages next)
    → (ok ≡ false → StoppedAt stages stop)
    → (if ok then next else stop).1 ≡ false
    → StoppedAt stages (if ok then next else stop)
either_stops true next stop stages h k e = h refl e
either_stops false next stop stages h k e = k refl

run_stages-StoppedAt :
    (in_band : Price → Price → Bool) (sw : Switches) (ctx : RiskContext) (limits : RiskLimits)
    (before stages : List Stage) (pc : PipelineContext)
    → length before + length stages ≤ 16
    → let run = run_stages in_band sw ctx limits stages pc (map passed before) in
      run.1 ≡ false → StoppedAt (before ++ stages) run
unfolding run_stages
run_stages-StoppedAt in_band sw ctx limits before [] pc room e = cc
run_stages-StoppedAt in_band sw ctx limits before (stage ∷ stages) pc room e =
    let (ok, pc') = check in_band sw ctx limits stage pc in
    let more : List Stage = before ++ stage ∷ [] in
    let fits : length before < 16 = omega (arith, room) in
    let longer = length-append before (stage ∷ []) in
    let onward : RiskTrace → Run = λ trace. run_stages in_band sw ctx limits stages pc' trace in
    let later : (onward (map passed more)).1 ≡ false
        → StoppedAt (more ++ stages) (onward (map passed more)) =
      run_stages-StoppedAt in_band sw ctx limits more stages pc' (omega (arith, room, longer)) in
    let with_room : (b : Bool)
        → ok ≡ b
        → add_stage stage ok (map passed before) ≡ map passed before ++ (stage, b) ∷ [] =
      λ b is.
        ap (λ o. add_stage stage o (map passed before)) is ∙ add_stage-room stage b before fits in
    either_stops ok _ _ (before ++ stage ∷ stages)
      (λ goes.
        subst (λ t. (onward t).1 ≡ false → StoppedAt (before ++ stage ∷ stages) (onward t))
          (sym (with_room true goes ∙ map-passed_snoc before stage))
          (subst
            (λ l. (onward (map passed more)).1 ≡ false → StoppedAt l (onward (map passed more)))
            (append_assoc before (stage ∷ []) stages) later))
      (λ stops. (before, stage, stages, refl, with_room false stops, refl)) e

-- An order that is rejected, for a trace that was empty, is stopped by one stage of the pipeline: the
-- trace holds the stages ahead of it as passed and that one as rejecting, the reason is that stage's,
-- and the statistics gain one rejection, one of that stage in the stage's own counter, and the latency.
pub rejection_is_counted :
    (in_band : Price → Price → Bool) (ctx : RiskContext) (ns : ℕ) (e : RiskEngine)
    → (validate in_band ctx [] ns e).1 ≡ false
    → let (reason, ok, trace, e') = validate in_band ctx [] ns e in
      (before : List Stage) × (stage : Stage) × (after : List Stage) × (policies
        ≡ before ++ stage ∷ after)
      × (trace ≡ map passed before ++ (stage, false) ∷ [])
      × (reason ≡ reject_reason stage)
      × (e'.stats
          ≡ record_risk_latency ns
              (counted stage (record e.stats { rejected_count = add64 e.stats.rejected_count 1 })))
unfolding validate
rejection_is_counted in_band ctx ns e h =
    let s : RiskStatistics = record e.stats { rejected_count = add64 e.stats.rejected_count 1 } in
    let (before, stage, after, split, trace, reason) =
      run_stages-StoppedAt in_band e.switches ctx e.limits [] policies e.context (omega arith) h in
    (
      before,
      stage,
      after,
      split,
      trace,
      reason,
      rw h (
          ap (record_risk_latency ns)
            (ap₂ (λ r t. count_reject r t s) reason trace ∙ count_reject-counted before stage s)),
    )
