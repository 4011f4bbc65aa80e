-- ===== src/Continuation/Closure/Reasons.antt =====
-- src/continuation/closure.ts: the reasons that a proof and its audit are refused for.
use ycm_harness.Common.{
  String, String-discrete, Bool, false, not, ◌&&◌, ◌||◌, Option, none, some, List, [], ◌∷◌, ◌++◌,
  ◌==◌, find, if◌then◌else◌, push_if, is_empty, is_some, truthy, opt_eq, Outcome, returns, throws,
  test,
}
use ycm_harness.Continuation.Policy.{input_of}
use ycm_harness.Continuation.Policy.Evaluate.{fail, sufficient_at}
use ycm_harness.Continuation.Policy.Replay.{evaluated}
use ycm_harness.Continuation.Digests.{
  Reason, AuditPolicy, AuditRecord, AuditCommitment, ShadowContent, ShadowRecord, Runtime,
  protected_sha,
}
use ycm_harness.Continuation.Audit.{AuditFiles, read_audits, audit_commitment}
use ycm_harness.Continuation.Audit.Records.{AuditFault, is_pass}
use ycm_harness.Continuation.Shadow.{ShadowFiles, read_shadows, same_policy}
use ycm_harness.Continuation.Shadow.Records.{
  Verdict-discrete, Reasons-discrete, ShadowFault, audit_fault, CanonicalVerdict, is_llm,
}

unfoldable pub Commitment-discrete : Discrete (Option AuditCommitment)
Commitment-discrete = hlevel (String-discrete)

unfoldable pub Id-discrete : Discrete (Option String)
Id-discrete = hlevel (String-discrete)

-- The gate's own reasons, and those of the record.
pub data ClosureReason : Type 0 where
  stored : Reason → ClosureReason
  proof_id_invalid proof_not_found proof_malformed proof_unreadable : ClosureReason
  proof_version_unsupported parent_mismatch run_mismatch session_mismatch : ClosureReason
  response_mismatch audit_reference_mismatch pass_not_audited_llm : ClosureReason
  audit_malformed audit_unreadable audit_not_found audit_mismatch : ClosureReason
  commitment_mismatch policy_invalid policy_mismatch policy_pair_mismatch : ClosureReason
  proof_id_missing parent_missing run_missing session_missing : ClosureReason

-- `ContinuationProofBinding`, less the root and the surface.
pub record ProofBinding : Type 0 where
  pub proof_id : String
  pub parent_id : String
  pub run_id : String
  pub session_id : String
  pub response_text : Option String
  pub audit_reference : Option String

-- The two stores: absent where the system refuses to read them.
pub record Access : Type 0 where
  pub shadows : Option ShadowFiles
  pub audits : Option AuditFiles

-- `failure(surface, proofId, reasons, stored)`
unfoldable pub failure :
    String → List ClosureReason → Option (CanonicalVerdict Reason) → CanonicalVerdict ClosureReason
failure proof_id reasons none = record {
  verdict = fail;
  reasons = reasons;
  failure_id = none;
  correction_reservation_id = none;
  audit_reference = none;
  proof_id = proof_id;
}
failure proof_id reasons (some v) = record {
  verdict = fail;
  reasons = reasons;
  failure_id = v.failure_id;
  correction_reservation_id = v.correction_reservation_id;
  audit_reference = v.audit_reference;
  proof_id = proof_id;
}

-- A store that cannot be read is malformed, unless the system refuses to read it.
abbrev pub relabel {ℓ κ} :
    {A : Type ℓ} {E : Type κ} → Outcome E A → ClosureReason → Outcome ClosureReason A
relabel (returns a) malformed = returns a
relabel (throws e) malformed = throws malformed

abbrev pub or_throw {ℓ} : {A : Type ℓ} → Option A → ClosureReason → Outcome ClosureReason A
or_throw none reason = throws reason
or_throw (some a) reason = returns a

abbrev read_shadow_store : Runtime → Option ShadowFiles → Outcome ClosureReason (List ShadowRecord)
read_shadow_store r none = throws proof_unreadable
read_shadow_store r (some files) = relabel (read_shadows r files) proof_malformed

abbrev pub proof_in :
    String → Outcome ClosureReason (List ShadowRecord) → Outcome ClosureReason ShadowRecord
proof_in id (throws reason) = throws reason
proof_in id (returns records) = or_throw (find (λ s. s.shadow_id == id) records) proof_not_found

-- `readProof(root, proofId)`
unfoldable pub read_proof : Runtime → Access → String → Outcome ClosureReason ShadowRecord
read_proof r access id = proof_in id (read_shadow_store r access.shadows)

abbrev pub differs_given : Option String → (String → Bool) → Bool
differs_given none f = false
differs_given (some s) f = f s

-- `bindingReasons(record, input)`
unfoldable pub binding_reasons : Runtime → ShadowContent → ProofBinding → List ClosureReason
binding_reasons r c input =
    push_if (not (c.parent_sha256 == protected_sha r "parent" input.parent_id)) parent_mismatch
    ++ (push_if (not (c.run_sha256 == protected_sha r "run" input.run_id)) run_mismatch
        ++ (push_if (not (c.session_sha256 == protected_sha r "session" input.session_id))
              session_mismatch
            ++ (push_if
                  (differs_given input.response_text
                    (λ t. not (c.response_sha256 == protected_sha r "response" t)))
                  response_mismatch
                ++ push_if
                    (differs_given input.audit_reference (λ a. not (opt_eq c.audit_reference a)))
                    audit_reference_mismatch)))

-- The audit is that of the record, of the same run, in shadow mode.
unfoldable pub audit_matches : Runtime → ShadowContent → ProofBinding → AuditRecord → Bool
audit_matches r c input a =
    is_some a.content.policy
    && (a.content.surface == "scheduled-finalizer"
        && (a.content.mode == "shadow"
            && (a.content.parent_sha256 == r.sha input.parent_id
                && (a.content.run_sha256 == r.sha input.run_id
                    && (a.content.session_sha256 == r.sha input.session_id
                        && (test (Verdict-discrete a.content.verdict c.would_block_verdict)
                            && (test (Reasons-discrete a.content.reasons c.reasons)
                                && not (
                                    differs_given input.response_text
                                      (λ t. not (a.content.response_sha256 == r.sha t))))))))))

-- The part of `auditReasons` about the policy of the audit.
unfoldable pub policy_reasons : ShadowContent → AuditPolicy → List ClosureReason
policy_reasons c p =
    if same_policy (evaluated (some (input_of p.trace))) p
    then if is_pass c.would_block_verdict
        && (not (is_pass p.verdict)
            || sufficient_at 0 p.trace.attempts
            || not (sufficient_at 4 p.trace.attempts)
            || is_empty p.trace.model_invocations)
      then policy_mismatch ∷ []
      else push_if
          (not (is_pass p.verdict)
            && not (
                test (Id-discrete c.failure_id p.policy_failure_id)
                && test (Id-discrete c.correction_reservation_id p.correction_reservation_id)))
          policy_pair_mismatch
    else policy_invalid ∷ []

-- The part of `auditReasons` about the commitment to the audit, once it is computed.
unfoldable pub committed_reasons :
    ShadowContent
    → AuditPolicy
    → Outcome AuditFault AuditCommitment
    → Outcome ShadowFault (List ClosureReason)
unfolding policy_reasons
committed_reasons c p (throws e) = throws (audit_fault e)
committed_reasons c p (returns k) = returns (
    if test (Commitment-discrete c.audit_commitment (some k))
    then policy_reasons c p
    else commitment_mismatch ∷ [])

-- The part of `auditReasons` about the audit that was found, and its policy.
unfoldable pub judged :
    Runtime
    → ShadowContent
    → ProofBinding
    → AuditRecord
    → Option AuditPolicy
    → Outcome ShadowFault (List ClosureReason)
unfolding audit_matches committed_reasons
judged r c input a none = returns (audit_mismatch ∷ [])
judged r c input a (some p) =
    if audit_matches r c input a
    then if is_some c.audit_commitment
      then committed_reasons c p (audit_commitment r a)
      else returns (commitment_mismatch ∷ [])
    else returns (audit_mismatch ∷ [])

unfoldable pub found_reasons :
    Runtime → ShadowContent → ProofBinding → AuditRecord → Outcome ShadowFault (List ClosureReason)
unfolding judged
found_reasons r c input a = judged r c input a a.content.policy

abbrev pub look_up :
    Runtime
    → ShadowContent
    → ProofBinding
    → Option AuditRecord
    → Outcome ShadowFault (List ClosureReason)
look_up r c input none = returns (audit_not_found ∷ [])
look_up r c input (some a) = found_reasons r c input a

abbrev pub searched :
    Runtime
    → ShadowContent
    → ProofBinding
    → String
    → Outcome ClosureReason (List AuditRecord)
    → Outcome ShadowFault (List ClosureReason)
searched r c input id (throws reason) = returns (reason ∷ [])
searched r c input id (returns audits) = look_up r c input (find (λ a. a.audit_id == id) audits)

-- `readContinuationAudits(input.root)`, with the reason why it failed.
abbrev pub read_audit_files : Runtime → Option AuditFiles → Outcome ClosureReason (List AuditRecord)
read_audit_files r none = throws audit_unreadable
read_audit_files r (some files) = relabel (read_audits r files) audit_malformed

abbrev pub read_audit_store : Runtime → Access → Outcome ClosureReason (List AuditRecord)
read_audit_store r access = read_audit_files r access.audits

abbrev pub referred :
    Runtime
    → Access
    → ShadowContent
    → ProofBinding
    → Option String
    → Outcome ShadowFault (List ClosureReason)
referred r access c input none = returns []
referred r access c input (some id) =
    if id == "" then returns [] else searched r c input id (read_audit_store r access)

-- `auditReasons(record, input)`
unfoldable pub audit_reasons :
    Runtime → Access → ShadowContent → ProofBinding → Outcome ShadowFault (List ClosureReason)
unfolding found_reasons
audit_reasons r access c input =
    if is_pass c.would_block_verdict
      && not (
          is_llm c.routing
          && c.audit_persisted
          && truthy c.audit_reference
          && is_some c.audit_commitment)
    then returns (pass_not_audited_llm ∷ [])
    else referred r access c input c.audit_reference
