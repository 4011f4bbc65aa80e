-- ===== src/Continuation/Audit/Records.antt =====
-- src/continuation/audit.ts: the records, their schemas and how they are built and checked.
use ycm_harness.Common.{
  String, Bool, true, false, not, ◌&&◌, ◌||◌, Option, none, some, List, [], ◌∷◌, ◌++◌, ◌==◌, find,
  if◌then◌else◌, truthy, Outcome, returns, throws, ◌>>=◌, ◌>>◌, require,
}
use ycm_harness.Continuation.Labels.{safe_label, unique, append_text}
use ycm_harness.Continuation.Policy.{PolicyInput, is_policy_trace}
use ycm_harness.Continuation.Policy.Evaluate.{Verdict, pass, fail, PolicyResult}
use ycm_harness.Continuation.Digests.{
  ContinuationItem, FinalizerResult, AuditPolicy, AuditContent, AuditRecord, is_sha256, Runtime,
}

pub data AuditFault : Type 0 where
  passing_policy_has_no_failure_pair unsupported_version invalid_audit secret_found : AuditFault
  invalid_stored_audit storage_failed : AuditFault

pub record AuditContext : Type 0 where
  pub parent_id : String
  pub run_id : String
  pub session_id : String
  pub surface : String
  pub mode : String
  pub execution_policy : Option PolicyInput

abbrev pub is_pass : Verdict → Bool
is_pass pass = true
is_pass fail = false

-- `.regex(SHA256).optional()`
abbrev pub optional_sha : Option String → Bool
optional_sha none = true
optional_sha (some s) = is_sha256 s

-- `ContinuationAuditPolicySchema`
unfoldable pub is_audit_policy : AuditPolicy → Bool
is_audit_policy p =
    is_policy_trace p.trace
    && optional_sha p.policy_failure_id
    && optional_sha p.correction_reservation_id
    && (if is_pass p.verdict
        then not (truthy p.policy_failure_id || truthy p.correction_reservation_id)
        else truthy p.policy_failure_id && truthy p.correction_reservation_id)

abbrev optional_policy : Option AuditPolicy → Bool
optional_policy none = true
optional_policy (some p) = is_audit_policy p

-- `ContinuationAuditContentSchema`, and the legacy one where there is no policy.
unfoldable pub is_audit_content : AuditContent → Bool
unfolding is_audit_policy
is_audit_content c =
    is_sha256 c.response_sha256
    && optional_policy c.policy
    && safe_label c.surface
    && safe_label c.mode
    && is_sha256 c.parent_sha256
    && is_sha256 c.run_sha256
    && is_sha256 c.session_sha256

-- The pair of `buildContinuationPolicyFailurePair` for a failed policy.
pub failed_pair : Runtime → String → PolicyResult → AuditContext → String × String
failed_pair r response policy context =
    let failure = r.sha (
      r.json_policy_failure (r.sha response) (r.sha context.parent_id) (r.sha context.run_id)
        (r.sha context.session_id) policy.reasons) in
    (failure, r.sha (append_text "continuation-policy-correction:" failure))

-- `buildContinuationPolicyFailurePair(responseText, policy, context)`
pub policy_failure_pair :
    Runtime → String → PolicyResult → AuditContext → Outcome AuditFault (String × String)
unfolding failed_pair
policy_failure_pair r response policy context =
    if is_pass policy.verdict
    then throws passing_policy_has_no_failure_pair
    else returns (failed_pair r response policy context)

-- `record.schema_version === 2 && record.policy.policy_failure_id === failureId`
abbrev failed_as : String → AuditRecord → Bool
failed_as failure a = elim a.content.policy [
  | none ↦ false
  | some p ↦ elim p.policy_failure_id [ none ↦ false | some id ↦ id == failure ]
]

-- The correction that an earlier audit of the same failure reserved, or the new one.
reserved : Option AuditRecord → String → Option String
reserved none fresh = some fresh
reserved (some a) fresh = elim a.content.policy [
  | none ↦ some fresh
  | some p ↦ p.correction_reservation_id
]

abbrev parse_policy : AuditPolicy → Outcome AuditFault AuditPolicy
parse_policy p = if is_audit_policy p then returns p else throws invalid_audit

-- `auditedPolicy(responseText, policy, context, records)`
unfoldable pub audited_policy :
    Runtime
    → String
    → PolicyResult
    → AuditContext
    → List AuditRecord
    → Outcome AuditFault AuditPolicy
unfolding policy_failure_pair reserved is_audit_policy
audited_policy r response policy context records =
    if is_pass policy.verdict
    then returns (record {
      trace = policy.trace;
      verdict = policy.verdict;
      reasons = policy.reasons;
      policy_failure_id = none;
      correction_reservation_id = none;
    })
    else (policy_failure_pair r response policy context >>= λ (failure, fresh).
        parse_policy (record {
          trace = policy.trace;
          verdict = policy.verdict;
          reasons = policy.reasons;
          policy_failure_id = some failure;
          correction_reservation_id = reserved (find (failed_as failure) records) fresh;
        }))

-- The truthy ones of an item's `evidence` and `monitoring_reference`.
abbrev references : ContinuationItem → List String
references i =
    (if i.evidence == "" then [] else i.evidence ∷ [])
    ++ (elim i.monitoring_reference [ none ↦ [] | some m ↦ if m == "" then [] else m ∷ [] ])

abbrev all_references : List ContinuationItem → List String
all_references [] = []
all_references (i ∷ is) = references i ++ all_references is

-- The content that `buildRecord` parses.
unfoldable pub audit_content :
    Runtime → String → FinalizerResult → AuditPolicy → AuditContext → AuditContent
unfolding unique
audit_content r response result policy context = record {
  response_sha256 = r.sha response;
  items = result.items;
  evidence_reference_ids = unique (all_references result.items);
  verdict = result.status;
  reasons = result.reasons;
  policy = some policy;
  surface = context.surface;
  mode = context.mode;
  parent_sha256 = r.sha context.parent_id;
  run_sha256 = r.sha context.run_id;
  session_sha256 = r.sha context.session_id;
}

-- The record of a content: `audit_id` and `content_sha256` are the digest of the content.
unfoldable pub sealed_audit : Runtime → AuditContent → String → AuditRecord
sealed_audit r content now =
    let digest = r.sha (r.json_audit_content content) in
    record {
      content = content;
      audit_id = digest;
      content_sha256 = digest;
      recorded_at = now;
      record_sha256 = r.sha (r.json_audit content digest digest now);
    }

-- `buildRecord(responseText, result, policy, context, recordedAt)`. `clean` is the result of the
-- scan for secrets.
unfoldable pub build_audit :
    Runtime
    → Bool
    → String
    → FinalizerResult
    → AuditPolicy
    → AuditContext
    → String
    → Outcome AuditFault AuditRecord
unfolding audit_content sealed_audit is_audit_content
build_audit r clean response result policy context now =
    let content = audit_content r response result policy context in
    require clean secret_found
    >> (require (is_audit_content content) invalid_audit >> returns (sealed_audit r content now))

-- What `storedRecord(raw, filenameId)` checks of a file.
unfoldable pub audit_is_sound : Runtime → String → AuditRecord → Bool
unfolding is_audit_content
audit_is_sound r name a =
    let digest = r.sha (r.json_audit_content a.content) in
    is_audit_content a.content
    && (a.audit_id == digest
        && (a.content_sha256 == digest
            && (a.record_sha256 == name
                && r.sha (r.json_audit a.content a.audit_id a.content_sha256 a.recorded_at)
                  == a.record_sha256)))
