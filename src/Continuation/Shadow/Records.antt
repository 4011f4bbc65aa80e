-- ===== src/Continuation/Shadow/Records.antt =====
-- src/continuation/shadow.ts: the records, their schemas and how they are built and checked.

use native.Mathlib.Decide.{ℕ_discrete}
use ycm_harness.Common.{
  String-discrete, String, Bool, true, false, not, ◌&&◌, ◌||◌, Option, none, some, List, ◌==◌,
  if◌then◌else◌, truthy, is_some, Outcome, returns, throws, ◌>>=◌, ◌>>◌, require,
}
use ycm_harness.Continuation.Policy.{PolicyInput, PolicyTrace}
use ycm_harness.Continuation.Policy.Evaluate.{Verdict, PolicyReason}
use ycm_harness.Continuation.Digests.{
  Reason, ContinuationItem, AuditRecord, AuditCommitment, ShadowVersion, legacy, current, strict,
  Routing, llm, no_agent_route, ShadowContent, ShadowRecord, is_sha256, Runtime, protected_sha,
}
use ycm_harness.Continuation.Audit.{audit_commitment}
use ycm_harness.Continuation.Audit.Records.{AuditFault, is_pass, optional_sha}

-- Equality of what the source compares as JSON texts.
unfoldable pub Reason-discrete : Discrete Reason
Reason-discrete = hlevel (String-discrete, ℕ_discrete)

unfoldable pub Items-discrete : Discrete (List ContinuationItem)
Items-discrete = hlevel (String-discrete, ℕ_discrete)

unfoldable pub PolicyReasons-discrete : Discrete (List PolicyReason)
PolicyReasons-discrete = hlevel (String-discrete, ℕ_discrete)

unfoldable pub Trace-discrete : Discrete PolicyTrace
Trace-discrete = hlevel (String-discrete, ℕ_discrete)

unfoldable pub Reasons-discrete : Discrete (List Reason)
Reasons-discrete = hlevel (String-discrete, ℕ_discrete)

unfoldable pub Verdict-discrete : Discrete Verdict
Verdict-discrete = hlevel

pub data ShadowFault : Type 0 where
  audit_fault : AuditFault → ShadowFault
  unsupported_shadow_version invalid_shadow invalid_stored_shadow : ShadowFault
  shadow_secret_found shadow_storage_failed missing_failure_pair : ShadowFault

pub data Trigger : Type 0 where
  scheduled cron interactive non_scheduled : Trigger

pub record ScheduledContext : Type 0 where
  pub parent_id : String
  pub run_id : String
  pub session_id : String
  pub schedule_id : String
  pub trigger : Trigger
  pub enabled : Bool
  pub routing : Routing
  pub execution_policy : PolicyInput

-- `CanonicalContinuationVerdict`
pub record CanonicalVerdict {ℓ} (R : Type ℓ) : Type ℓ where
  pub verdict : Verdict
  pub reasons : List R
  pub failure_id : Option String
  pub correction_reservation_id : Option String
  pub audit_reference : Option String
  pub proof_id : String

abbrev pub is_llm : Routing → Bool
is_llm llm = true
is_llm no_agent_route = false

abbrev pub same : Bool → Bool → Bool
same true b = b
same false b = not b

-- The refinements of a shadow's schema.
abbrev pair_agrees : ShadowContent → Bool
pair_agrees c =
    if is_pass c.would_block_verdict
    then not (truthy c.failure_id || truthy c.correction_reservation_id)
    else truthy c.failure_id && truthy c.correction_reservation_id

unfoldable pub refined : ShadowVersion → ShadowContent → Bool
refined legacy c = same c.audit_persisted (truthy c.audit_reference)
refined current c = same c.audit_persisted (truthy c.audit_reference) && pair_agrees c
refined strict c =
    same c.audit_persisted (truthy c.audit_reference)
    && same c.audit_persisted (is_some c.audit_commitment)
    && pair_agrees c
    && not (
        is_pass c.would_block_verdict
        && is_llm c.routing
        && not (c.audit_persisted && truthy c.audit_reference && is_some c.audit_commitment))

-- `ContinuationShadowRecordSchema` on the content of a record.
unfoldable pub is_shadow_content : ShadowContent → Bool
unfolding refined
is_shadow_content c =
    is_sha256 c.response_sha256
    && is_sha256 c.schedule_sha256
    && is_sha256 c.parent_sha256
    && is_sha256 c.run_sha256
    && is_sha256 c.session_sha256
    && optional_sha c.audit_reference
    && optional_sha c.failure_id
    && optional_sha c.correction_reservation_id
    && refined c.version c

abbrev pub kept : Option String → Option String
kept o = if truthy o then o else none

abbrev pub is_strict : ShadowVersion → Bool
is_strict strict = true
is_strict _ = false

-- `continuationVerdictFromShadowRecord(record, surface)`
unfoldable pub verdict_of_record : ShadowRecord → Outcome ShadowFault (CanonicalVerdict Reason)
verdict_of_record s =
    if is_shadow_content s.content
    then if is_strict s.content.version
      then returns (record {
        verdict = s.content.would_block_verdict;
        reasons = s.content.reasons;
        failure_id = kept s.content.failure_id;
        correction_reservation_id = kept s.content.correction_reservation_id;
        audit_reference = kept s.content.audit_reference;
        proof_id = s.shadow_id;
      })
      else throws unsupported_shadow_version
    else throws invalid_shadow

pub record ShadowOutcome : Type 0 where
  pub verdict : Verdict
  pub reasons : List Reason
  pub audit : Option AuditRecord

pub record FailurePair : Type 0 where
  pub failure_id : String
  pub correction_reservation_id : String

abbrev pub some_commitment :
    Outcome AuditFault AuditCommitment → Outcome ShadowFault (Option AuditCommitment)
some_commitment (returns k) = returns (some k)
some_commitment (throws e) = throws (audit_fault e)

-- `outcome.audit ? continuationAuditCommitment(outcome.audit) : absent`
unfoldable pub commitment_of :
    Runtime → Option AuditRecord → Outcome ShadowFault (Option AuditCommitment)
unfolding audit_commitment
commitment_of r none = returns none
commitment_of r (some a) = some_commitment (audit_commitment r a)

unfoldable pub shadow_content :
    Runtime
    → String
    → ScheduledContext
    → ShadowOutcome
    → FailurePair
    → Option AuditCommitment
    → ShadowContent
shadow_content r response context outcome pair commitment = record {
  version = strict;
  response_sha256 = protected_sha r "response" response;
  schedule_sha256 = protected_sha r "schedule" context.schedule_id;
  parent_sha256 = protected_sha r "parent" context.parent_id;
  run_sha256 = protected_sha r "run" context.run_id;
  session_sha256 = protected_sha r "session" context.session_id;
  routing = context.routing;
  would_block_verdict = outcome.verdict;
  reasons = outcome.reasons;
  audit_persisted = is_some outcome.audit;
  audit_reference = elim outcome.audit [ none ↦ none | some a ↦ some a.audit_id ];
  audit_commitment = commitment;
  failure_id = if is_pass outcome.verdict then none else some pair.failure_id;
  correction_reservation_id =
      if is_pass outcome.verdict then none else some pair.correction_reservation_id;
}

-- A content with its digests.
unfoldable pub sealed_shadow : Runtime → ShadowContent → String → ShadowRecord
sealed_shadow r content now =
    let digest = protected_sha r "content" (r.json_shadow_content content) in
    record {
      content = content;
      shadow_id = digest;
      content_sha256 = digest;
      recorded_at = now;
      record_sha256 = protected_sha r "record" (r.json_shadow content digest digest now);
    }

-- `buildRecord(responseText, context, outcome, failurePair, recordedAt)`
unfoldable pub build_shadow :
    Runtime
    → Bool
    → String
    → ScheduledContext
    → ShadowOutcome
    → FailurePair
    → String
    → Outcome ShadowFault ShadowRecord
unfolding commitment_of shadow_content sealed_shadow is_shadow_content
build_shadow r clean response context outcome pair now =
    require clean shadow_secret_found
    >> (commitment_of r outcome.audit >>= λ commitment.
        let content = shadow_content r response context outcome pair commitment in
        require (is_shadow_content content) invalid_shadow >> returns (sealed_shadow r content now))

-- What `storedRecord(raw, filenameId)` checks of a file.
unfoldable pub shadow_is_sound : Runtime → String → ShadowRecord → Bool
unfolding is_shadow_content
shadow_is_sound r name s =
    let digest = protected_sha r "content" (r.json_shadow_content s.content) in
    is_shadow_content s.content
    && (s.shadow_id == digest
        && (s.content_sha256 == digest
            && (s.record_sha256 == name
                && protected_sha r "record"
                    (r.json_shadow s.content s.shadow_id s.content_sha256 s.recorded_at)
                  == s.record_sha256)))
