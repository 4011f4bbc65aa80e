-- ===== src/Continuation/Shadow.antt =====
-- src/continuation/shadow.ts: the record of a scheduled response, its store, and its outcome.
pub mod Records
pub mod Observe
pub mod Stored
use Prim.Native.String as Text
use native.Mathlib.Decide.{ℕ_discrete}
use ycm_harness.Common.{
  ℕ, ◌≡◌, String-discrete, String, Bool, true, false, not, ◌&&◌, ◌||◌, Option, none, some, List, [],
  ◌∷◌, ◌++◌, map, ◌==◌, any, find, head?, if◌then◌else◌, truthy, is_some, is_empty, Outcome,
  returns, throws, ◌>>=◌, ◌>>◌, require, test, code_le, filter, opt_eq,
}
use ycm_harness.Continuation.Policy.{Stage, no_agent, StageAttempt, PolicyInput, PolicyTrace}
use ycm_harness.Continuation.Policy.Evaluate.{
  Verdict, pass, fail, PolicyReason, PolicyResult, is_sufficient,
}
use ycm_harness.Continuation.Policy.Replay.{evaluated}
use ycm_harness.Continuation.Store.{Files, write, stored_record, read_after}
use ycm_harness.Continuation.Digests.{
  Reason, of_policy, audit_persistence_failed, shadow_validator_failed, llm_route_invalid,
  shadow_audit_missing, no_agent_route_invalid, shadow_persistence_failed, ContinuationItem,
  FinalizerResult, AuditPolicy, AuditContent, AuditRecord, AuditCommitment, ShadowVersion, legacy,
  current, strict, Routing, llm, no_agent_route, ShadowContent, ShadowRecord, is_sha256, Runtime,
  protected_sha,
}
use ycm_harness.Continuation.Audit.{
  AuditFiles, read_audits, audit_commitment, Disk, works, fails_before_write, fails_after_write,
}
use ycm_harness.Continuation.Audit.Records.{
  AuditFault, AuditContext, is_pass, optional_sha, policy_failure_pair,
}
use ycm_harness.Continuation.Shadow.Records.{
  Reason-discrete, Items-discrete, PolicyReasons-discrete, Trace-discrete, Reasons-discrete,
  Verdict-discrete, ShadowFault, ScheduledContext, ShadowOutcome, shadow_is_sound,
  invalid_stored_shadow, shadow_storage_failed,
}

abbrev pub ShadowFiles : Type 0
ShadowFiles = Files ShadowRecord

abbrev pub id_of_shadow : ShadowRecord → String
id_of_shadow s = s.shadow_id

unfoldable pub stored_shadow : Runtime → String → ShadowRecord → Outcome ShadowFault ShadowRecord
unfolding shadow_is_sound stored_record
stored_shadow r name s = stored_record id_of_shadow (shadow_is_sound r) invalid_stored_shadow name s

-- `readContinuationShadowRecords(root)`
unfoldable pub read_shadows : Runtime → ShadowFiles → Outcome ShadowFault (List ShadowRecord)
unfolding read_after shadow_is_sound
read_shadows r files = read_after id_of_shadow (shadow_is_sound r) invalid_stored_shadow [] files

write_and_read :
    Runtime → Disk → ShadowRecord → ShadowFiles → Outcome ShadowFault ShadowRecord × ShadowFiles
unfolding stored_shadow write
write_and_read r works s files = (stored_shadow r s.record_sha256 s, write s.record_sha256 s files)
write_and_read r fails_before_write s files = (throws shadow_storage_failed, files)
write_and_read r fails_after_write s files =
    (throws shadow_storage_failed, write s.record_sha256 s files)

abbrev keep_or_write :
    Runtime
    → Disk
    → ShadowRecord
    → ShadowFiles
    → Option ShadowRecord
    → Outcome ShadowFault ShadowRecord × ShadowFiles
keep_or_write r disk s files (some existing) = (returns existing, files)
keep_or_write r disk s files none = write_and_read r disk s files

abbrev persist_over :
    Runtime
    → Disk
    → ShadowRecord
    → ShadowFiles
    → Outcome ShadowFault (List ShadowRecord)
    → Outcome ShadowFault ShadowRecord × ShadowFiles
persist_over r disk s files (throws e) = (throws e, files)
persist_over r disk s files (returns records) =
    keep_or_write r disk s files (find (λ t. t.shadow_id == s.shadow_id) records)

-- `persistShadowRecordUnlocked(record, context, deps)`
unfoldable pub persist_shadow :
    Runtime → Disk → ShadowRecord → ShadowFiles → Outcome ShadowFault ShadowRecord × ShadowFiles
unfolding write_and_read read_shadows
persist_shadow r disk s files = persist_over r disk s files (read_shadows r files)

abbrev is_no_agent : Stage → Bool
is_no_agent no_agent = true
is_no_agent _ = false

abbrev no_agent_sufficient : Option StageAttempt → Bool
no_agent_sufficient none = false
no_agent_sufficient (some a) = is_no_agent a.stage && is_sufficient a.outcome

-- `noAgentRouteIsValid(policy)`
unfoldable pub no_agent_route_is_valid : PolicyResult → Bool
no_agent_route_is_valid policy =
    is_pass policy.verdict
    && no_agent_sufficient (head? policy.trace.attempts)
    && is_empty policy.trace.model_invocations

abbrev pub same_policy : PolicyResult → AuditPolicy → Bool
same_policy policy p =
    test (Verdict-discrete p.verdict policy.verdict)
    && (test (PolicyReasons-discrete p.reasons policy.reasons)
        && test (Trace-discrete p.trace policy.trace))

-- The test of the record that `exactAuditRecord` looks for, with its policy.
unfoldable pub exact_with :
    Runtime
    → String
    → ScheduledContext
    → FinalizerResult
    → PolicyResult
    → AuditRecord
    → Option AuditPolicy
    → Bool
exact_with r response context result policy a none = false
exact_with r response context result policy a (some p) =
    a.content.response_sha256 == r.sha response
    && (a.content.parent_sha256 == r.sha context.parent_id
        && (a.content.run_sha256 == r.sha context.run_id
            && (a.content.session_sha256 == r.sha context.session_id
                && (a.content.surface == "scheduled-finalizer"
                    && (a.content.mode == "shadow"
                        && (test (Verdict-discrete a.content.verdict result.status)
                            && (test (Reasons-discrete a.content.reasons result.reasons)
                                && (test (Items-discrete a.content.items result.items)
                                    && same_policy policy p))))))))

unfoldable pub is_exact_audit :
    Runtime → String → ScheduledContext → FinalizerResult → PolicyResult → AuditRecord → Bool
unfolding exact_with
is_exact_audit r response context result policy a =
    exact_with r response context result policy a a.content.policy

abbrev pub includes : Reason → List Reason → Bool
includes reason = any (λ x. test (Reason-discrete x reason))

abbrev pub find_in :
    (AuditRecord → Bool) → Outcome AuditFault (List AuditRecord) → Option AuditRecord
find_in p (returns records) = find p records
find_in p (throws e) = none

-- `exactAuditRecord(responseText, context, result, policy)`
unfoldable pub exact_audit_record :
    Runtime
    → String
    → ScheduledContext
    → FinalizerResult
    → PolicyResult
    → AuditFiles
    → Option AuditRecord
unfolding is_exact_audit
exact_audit_record r response context result policy audits =
    if includes audit_persistence_failed result.reasons
    then none
    else find_in (is_exact_audit r response context result policy) (read_audits r audits)

-- `withReason(result, reason)`
unfoldable pub with_reason : FinalizerResult → Reason → FinalizerResult
with_reason result reason =
    if includes reason result.reasons
    then result
    else record result { status = fail; reasons = result.reasons ++ reason ∷ [] }

-- `llmOutcome` once the audited finalizer gave its result, or threw, and left its store.
unfoldable pub llm_outcome :
    Runtime
    → String
    → ScheduledContext
    → PolicyResult
    → Option FinalizerResult
    → AuditFiles
    → ShadowOutcome
unfolding no_agent_route_is_valid with_reason exact_audit_record
llm_outcome r response context policy none audits = record {
  verdict = fail;
  reasons = shadow_validator_failed ∷ [];
  audit = none;
}
llm_outcome r response context policy (some finalized) audits =
    let routed =
      if no_agent_route_is_valid policy
      then with_reason finalized llm_route_invalid
      else finalized in
    let audit = exact_audit_record r response context routed policy audits in
    let result =
      if not (is_some audit)
        && not (includes audit_persistence_failed routed.reasons)
        && not (includes llm_route_invalid routed.reasons)
      then with_reason routed shadow_audit_missing
      else routed in
    record { verdict = result.status; reasons = result.reasons; audit = audit }

-- The outcome of a response that no model wrote.
unfoldable pub no_agent_outcome : PolicyResult → ShadowOutcome
unfolding no_agent_route_is_valid
no_agent_outcome policy =
    if no_agent_route_is_valid policy
    then record { verdict = pass; reasons = []; audit = none }
    else record {
      verdict = fail;
      reasons =
          if is_empty policy.reasons
          then no_agent_route_invalid ∷ []
          else map of_policy policy.reasons;
      audit = none;
    }
