-- ===== src/Continuation/Shadow/Observe/Observed.antt =====
-- src/continuation/shadow.ts: the observation of a scheduled response.
use Prim.Native.Char.{nul}
use Prim.Native.String as Text
use ycm_harness.Common.{
  String, Bool, true, false, not, ◌||◌, Option, none, some, if◌then◌else◌, Outcome, returns, throws,
}
use ycm_harness.Continuation.Labels.{append_text}
use ycm_harness.Continuation.Policy.Evaluate.{PolicyResult}
use ycm_harness.Continuation.Policy.Replay.{evaluated}
use ycm_harness.Continuation.Digests.{
  FinalizerResult, ShadowRecord, Routing, llm, no_agent_route, Runtime, protected_sha,
}
use ycm_harness.Continuation.Audit.{AuditFiles, Disk}
use ycm_harness.Continuation.Audit.Records.{AuditContext, is_pass, failed_pair}
use ycm_harness.Continuation.Shadow.{ShadowFiles, persist_shadow, llm_outcome, no_agent_outcome}
use ycm_harness.Continuation.Shadow.Records.{
  ShadowFault, Trigger, scheduled, cron, ScheduledContext, ShadowOutcome, FailurePair, build_shadow,
}

-- `auditContext(context)`
abbrev pub audit_context : ScheduledContext → AuditContext
audit_context context = record {
  parent_id = context.parent_id;
  run_id = context.run_id;
  session_id = context.session_id;
  surface = "scheduled-finalizer";
  mode = "shadow";
  execution_policy = some context.execution_policy;
}

-- `prefix\0rest`
abbrev tagged : String → String → String
tagged prefix rest = append_text prefix (Text.◌∷◌ nul rest)

-- `shadowFailurePair(responseText, context)`
unfoldable pub shadow_failure_pair : Runtime → String → ScheduledContext → FailurePair
shadow_failure_pair r response context =
    let identity =
      r.json_shadow_failure (protected_sha r "response" response)
        (protected_sha r "schedule" context.schedule_id)
        (protected_sha r "parent" context.parent_id) (protected_sha r "run" context.run_id)
        (protected_sha r "session" context.session_id) context.routing in
    let failure = r.sha (tagged "continuation-shadow-enforcement:v2:failure" identity) in
    record {
      failure_id = failure;
      correction_reservation_id =
          r.sha (tagged "continuation-shadow-enforcement:v2:correction" failure);
    }

-- `observationFailurePair(responseText, context, policy)`
unfoldable pub observation_failure_pair :
    Runtime → String → ScheduledContext → PolicyResult → FailurePair
unfolding shadow_failure_pair
observation_failure_pair r response context policy =
    if is_pass policy.verdict
    then shadow_failure_pair r response context
    else (let (failure, correction) = failed_pair r response policy (audit_context context) in
        record { failure_id = failure; correction_reservation_id = correction })

-- `ScheduledObservation`
pub record Observation : Type 0 where
  pub applicable : Bool
  pub outcome : Option ShadowOutcome
  pub stored : Option ShadowRecord
  pub failure_pair : Option FailurePair
  pub persistence_failed : Bool

abbrev pub is_scheduled : Trigger → Bool
is_scheduled scheduled = true
is_scheduled cron = true
is_scheduled _ = false

-- What the adapter depends on: the audited finalizer, which may throw and which leaves the audit
-- store changed; whether the lease was given; the disk; the scan for secrets; the clock.
pub record Deps : Type 0 where
  pub finalize : AuditFiles → Option FinalizerResult × AuditFiles
  pub lease : Bool
  pub disk : Disk
  pub clean : Bool
  pub now : String

pub record Stores : Type 0 where
  pub audits : AuditFiles
  pub shadows : ShadowFiles

-- The outcome by the route of the response, and the audits after it.
abbrev pub routed_outcome :
    Runtime
    → Deps
    → String
    → ScheduledContext
    → PolicyResult
    → AuditFiles
    → Routing
    → ShadowOutcome × AuditFiles
routed_outcome r deps response context policy audits no_agent_route =
    (no_agent_outcome policy, audits)
routed_outcome r deps response context policy audits llm =
    let (finalized, audits') = deps.finalize audits in
    (llm_outcome r response context policy finalized audits', audits')

unfoldable pub outcome_of :
    Runtime
    → Deps
    → String
    → ScheduledContext
    → PolicyResult
    → AuditFiles
    → ShadowOutcome × AuditFiles
outcome_of r deps response context policy audits =
    routed_outcome r deps response context policy audits context.routing

abbrev pub observed : ShadowOutcome → FailurePair → Option ShadowRecord → Bool → Observation
observed outcome pair stored failed = record {
  applicable = true;
  outcome = some outcome;
  stored = stored;
  failure_pair = some pair;
  persistence_failed = failed;
}

abbrev pub kept_record :
    ShadowOutcome → FailurePair → ShadowRecord → Outcome ShadowFault ShadowRecord → Observation
kept_record outcome pair candidate (returns s) = observed outcome pair (some s) false
kept_record outcome pair candidate (throws e) = observed outcome pair (some candidate) true

abbrev pub record_outcome :
    Runtime
    → Deps
    → ShadowOutcome
    → FailurePair
    → ShadowFiles
    → Outcome ShadowFault ShadowRecord
    → Observation × ShadowFiles
record_outcome r deps outcome pair shadows (throws e) = (observed outcome pair none true, shadows)
record_outcome r deps outcome pair shadows (returns candidate) =
    let (stored, shadows') = persist_shadow r deps.disk candidate shadows in
    (kept_record outcome pair candidate stored, shadows')

-- The observation of an outcome, and the stores that it leaves.
abbrev pub recorded :
    Runtime
    → Deps
    → String
    → ScheduledContext
    → FailurePair
    → ShadowFiles
    → ShadowOutcome × AuditFiles
    → Observation × Stores
recorded r deps response context pair shadows (outcome, audits) =
    let (observation, shadows') =
      record_outcome r deps outcome pair shadows
        (build_shadow r deps.clean response context outcome pair deps.now) in
    (observation, record { audits = audits; shadows = shadows' })

abbrev not_applicable : Observation
not_applicable = record {
  applicable = false;
  outcome = none;
  stored = none;
  failure_pair = none;
  persistence_failed = false;
}

abbrev no_lease : FailurePair → Observation
no_lease pair = record {
  applicable = true;
  outcome = none;
  stored = none;
  failure_pair = some pair;
  persistence_failed = true;
}

-- `observeScheduledResponse(responseText, context, deps)`
unfoldable pub observe : Runtime → Deps → String → ScheduledContext → Stores → Observation × Stores
unfolding observation_failure_pair outcome_of
observe r deps response context stores =
    let policy = evaluated (some context.execution_policy) in
    let pair = observation_failure_pair r response context policy in
    if not context.enabled || not (is_scheduled context.trigger)
    then (not_applicable, stores)
    else if deps.lease
    then recorded r deps response context pair stores.shadows
        (outcome_of r deps response context policy stores.audits)
    else (no_lease pair, stores)
