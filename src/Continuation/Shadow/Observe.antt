-- ===== src/Continuation/Shadow/Observe.antt =====
-- src/continuation/shadow.ts: the observation of a scheduled response, its verdict, and the block
-- that enforcement makes of it.
pub mod Observed
pub mod Kept
use Prim.Native.Char.{nul}
use Prim.Native.String as Text
use ycm_harness.Common.{
  String, Bool, true, false, not, ◌&&◌, ◌||◌, Option, none, some, List, [], ◌∷◌, ◌++◌, filter,
  if◌then◌else◌, opt_eq, Outcome, returns, throws, ◌>>=◌, test,
}
use ycm_harness.Continuation.Labels.{append_text}
use ycm_harness.Continuation.Policy.Evaluate.{Verdict, pass, fail, PolicyResult}
use ycm_harness.Continuation.Policy.Replay.{evaluated}
use ycm_harness.Continuation.Digests.{
  Reason, shadow_persistence_failed, FinalizerResult, ShadowRecord, Routing, llm, no_agent_route,
  Runtime, protected_sha,
}
use ycm_harness.Continuation.Audit.{AuditFiles, Disk}
use ycm_harness.Continuation.Audit.Records.{AuditContext, is_pass, failed_pair}
use ycm_harness.Continuation.Shadow.{ShadowFiles, persist_shadow, llm_outcome, no_agent_outcome}
use ycm_harness.Continuation.Shadow.Records.{
  Reason-discrete, ShadowFault, missing_failure_pair, Trigger, scheduled, cron, interactive,
  non_scheduled, ScheduledContext, CanonicalVerdict, is_llm, verdict_of_record, ShadowOutcome,
  FailurePair, build_shadow,
}
use ycm_harness.Continuation.Shadow.Observe.Observed.{Observation, Deps, Stores, observe}

-- `[...new Set(reasons)]`
pub unique_reasons : List Reason → List Reason
unique_reasons [] = []
unique_reasons (x ∷ xs) = x ∷ filter (λ y. not (test (Reason-discrete y x))) (unique_reasons xs)

abbrev outcome_reasons : Option ShadowOutcome → List Reason
outcome_reasons none = []
outcome_reasons (some o) = o.reasons

abbrev pair_failure : Option FailurePair → Option String
pair_failure none = none
pair_failure (some p) = some p.failure_id

abbrev pair_correction : Option FailurePair → Option String
pair_correction none = none
pair_correction (some p) = some p.correction_reservation_id

-- The verdict of an observation that left no record.
unpersisted : Runtime → String → ScheduledContext → Observation → CanonicalVerdict Reason
unfolding unique_reasons
unpersisted r response context o = record {
  verdict = fail;
  reasons = unique_reasons (outcome_reasons o.outcome ++ shadow_persistence_failed ∷ []);
  failure_id = pair_failure o.failure_pair;
  correction_reservation_id = pair_correction o.failure_pair;
  audit_reference = none;
  proof_id = protected_sha r "unpersisted" (
      r.json_unpersisted (protected_sha r "response" response)
        (protected_sha r "schedule" context.schedule_id)
        (protected_sha r "parent" context.parent_id) (protected_sha r "run" context.run_id)
        (protected_sha r "session" context.session_id) context.routing);
}

abbrev pub as_failed : CanonicalVerdict Reason → CanonicalVerdict Reason
as_failed v = record v {
  verdict = fail;
  reasons = unique_reasons (v.reasons ++ shadow_persistence_failed ∷ []);
}

-- `observationVerdict(responseText, context, observation)`
unfoldable pub observation_verdict :
    Runtime
    → String
    → ScheduledContext
    → Observation
    → Outcome ShadowFault (Option (CanonicalVerdict Reason))
unfolding unpersisted
observation_verdict r response context o =
    if o.applicable
    then elim o.stored [
      | none ↦ returns (some (unpersisted r response context o))
      | some s ↦ verdict_of_record s >>= λ v.
          returns (some (if o.persistence_failed then as_failed v else v))
    ]
    else returns none

-- `ScheduledFinalizerBlock`: its texts are made of the reasons.
pub record FinalizerBlock : Type 0 where
  pub reasons : List Reason
  pub failure_id : String
  pub correction_reservation_id : String

-- An id that is there and not empty.
abbrev given : Option String → Option String
given none = none
given (some s) = if opt_eq (some s) "" then none else some s

abbrev block_of :
    List Reason → Option String → Option String → Outcome ShadowFault (Option FinalizerBlock)
block_of reasons (some failure) (some correction) = returns (
    some
      (record { reasons = reasons; failure_id = failure; correction_reservation_id = correction }))
block_of reasons _ _ = throws missing_failure_pair

-- `enforcementClosure(context, verdict)`
unfoldable pub enforcement_closure :
    ScheduledContext
    → Option (CanonicalVerdict Reason)
    → Outcome ShadowFault (Option FinalizerBlock)
enforcement_closure context none = returns none
enforcement_closure context (some v) =
    if is_llm context.routing && not (is_pass v.verdict)
    then block_of v.reasons (given v.failure_id) (given v.correction_reservation_id)
    else returns none

-- `YCM_HARNESS_SCHEDULED_FINALIZER_MODE === "enforce"`
abbrev pub enforces : Option String → Bool
enforces mode = opt_eq mode "enforce"

-- `ScheduledFinalizerResult`
pub record ScheduledResult : Type 0 where
  pub response_text : String
  pub closure : Option FinalizerBlock
  pub verdict : Option (CanonicalVerdict Reason)

-- `finalizeScheduledResponse(responseText, context, deps)`, in the mode of the environment.
unfoldable pub finalize_scheduled_response :
    Runtime
    → Deps
    → Option String
    → String
    → ScheduledContext
    → Stores
    → Outcome ShadowFault ScheduledResult × Stores
unfolding observe observation_verdict enforcement_closure
finalize_scheduled_response r deps mode response context stores =
    let (observation, stores') = observe r deps response context stores in
    (
      observation_verdict r response context observation >>= λ verdict.
          (if enforces mode then enforcement_closure context verdict else returns none)
          >>= λ closure.
              returns (record { response_text = response; closure = closure; verdict = verdict }),
      stores',
    )
