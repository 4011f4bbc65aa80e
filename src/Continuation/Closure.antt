-- ===== src/Continuation/Closure.antt =====
-- src/continuation/closure.ts: the gate that authenticates a stored proof before a closure.
pub mod Reasons
pub mod Audited
mod Accepts
pub mod Scheduled
pub mod Tests
use ycm_harness.Common.{
  String, String-discrete, Bool, true, false, not, ◌&&◌, ◌||◌, Option, none, some, List, [], ◌∷◌,
  ◌++◌, map, ◌==◌, find, get_elem?, if◌then◌else◌, push_if, is_empty, is_some, truthy, trim, opt_eq,
  Outcome, returns, throws, ◌>>=◌, test,
}
use ycm_harness.Continuation.Policy.{StageAttempt, PolicyTrace, input_of}
use ycm_harness.Continuation.Policy.Evaluate.{Verdict, pass, fail, PolicyResult, sufficient_at}
use ycm_harness.Continuation.Policy.Replay.{evaluated}
use ycm_harness.Continuation.Digests.{
  Reason, AuditPolicy, AuditRecord, AuditCommitment, ShadowContent, ShadowRecord, is_sha256,
  Runtime, protected_sha,
}
use ycm_harness.Continuation.Audit.{AuditFiles, read_audits, audit_commitment}
use ycm_harness.Continuation.Audit.Records.{AuditFault, is_pass}
use ycm_harness.Continuation.Shadow.{ShadowFiles, read_shadows, same_policy}
use ycm_harness.Continuation.Shadow.Records.{
  Verdict-discrete, Reasons-discrete, ShadowFault, audit_fault, CanonicalVerdict, is_llm, is_strict,
  verdict_of_record,
}
use ycm_harness.Continuation.Closure.Reasons.{
  ClosureReason, ProofBinding, Access, failure, read_proof, binding_reasons, audit_reasons, stored,
  proof_id_invalid, proof_version_unsupported, proof_id_missing, parent_missing, run_missing,
  session_missing,
}

abbrev as_stored : CanonicalVerdict Reason → CanonicalVerdict ClosureReason
as_stored v = record {
  verdict = v.verdict;
  reasons = map stored v.reasons;
  failure_id = v.failure_id;
  correction_reservation_id = v.correction_reservation_id;
  audit_reference = v.audit_reference;
  proof_id = v.proof_id;
}

abbrev pub or_failure :
    String → List ClosureReason → CanonicalVerdict Reason → CanonicalVerdict ClosureReason
or_failure id [] v = as_stored v
or_failure id (x ∷ xs) v = failure id (x ∷ xs) (some v)

-- The part of `loadContinuationClosureVerdict` past the reading of the proof.
pub closure_of :
    Runtime
    → Access
    → ProofBinding
    → ShadowRecord
    → Outcome ShadowFault (CanonicalVerdict ClosureReason)
unfolding failure binding_reasons audit_reasons
closure_of r access input s =
    if is_strict s.content.version
    then (verdict_of_record s >>= λ v.
        let bound = binding_reasons r s.content input in
        if is_empty bound
        then (audit_reasons r access s.content input >>= λ reasons.
            returns (or_failure input.proof_id reasons v))
        else returns (failure input.proof_id bound (some v)))
    else returns (failure input.proof_id (proof_version_unsupported ∷ []) none)

-- `loadContinuationClosureVerdict(input)`
unfoldable pub load_closure_verdict :
    Runtime → Access → ProofBinding → Outcome ShadowFault (CanonicalVerdict ClosureReason)
unfolding read_proof closure_of failure
load_closure_verdict r access input =
    if is_sha256 input.proof_id
    then elim (read_proof r access input.proof_id) [
      | throws reason ↦ returns (failure input.proof_id (reason ∷ []) none)
      | returns s ↦ closure_of r access input s
    ]
    else returns (failure input.proof_id (proof_id_invalid ∷ []) none)

-- The variables of the environment that the gate reads.
pub record GateEnv : Type 0 where
  pub mode : Option String
  pub proof_id : Option String
  pub parent_id : Option String
  pub run_id : Option String
  pub session_id : Option String

-- `envValue(env, key)`
abbrev pub env_value : Option String → Option String
env_value none = none
env_value (some s) = let value = trim s in if value == "" then none else some value

abbrev missing : Option String → ClosureReason → List ClosureReason
missing o reason = push_if (not (is_some o)) reason

abbrev text_or_empty : Option String → String
text_or_empty none = ""
text_or_empty (some s) = s

abbrev pub checked :
    Runtime
    → Access
    → Option String
    → Option String
    → Option String
    → Option String
    → Outcome ShadowFault (CanonicalVerdict ClosureReason)
checked r access (some proof) (some parent) (some run) (some session) =
    load_closure_verdict r access (record {
      proof_id = proof;
      parent_id = parent;
      run_id = run;
      session_id = session;
      response_text = none;
      audit_reference = none;
    })
checked r access proof parent run session = returns (
    failure (text_or_empty proof)
      (missing proof proof_id_missing
        ++ (missing parent parent_missing
            ++ (missing run run_missing ++ missing session session_missing)))
      none)

-- `continuationClosureGate(input)`: absent outside the enforcing mode.
unfoldable pub continuation_closure_gate :
    Runtime → Access → GateEnv → Outcome ShadowFault (Option (CanonicalVerdict ClosureReason))
continuation_closure_gate r access env =
    if opt_eq env.mode "enforce"
    then (checked r access (env_value env.proof_id) (env_value env.parent_id) (env_value env.run_id)
          (env_value env.session_id)
        >>= λ v. returns (some v))
    else returns none

pub data ClosureError : Type 0 where
  shadow_fault : ShadowFault → ClosureError
  closure_failed : List ClosureReason → ClosureError

abbrev pub required :
    Outcome ShadowFault (Option (CanonicalVerdict ClosureReason))
    → Outcome ClosureError (Option (CanonicalVerdict ClosureReason))
required (throws e) = throws (shadow_fault e)
required (returns none) = returns none
required (returns (some v)) =
    if is_pass v.verdict then returns (some v) else throws (closure_failed v.reasons)

-- `requireContinuationClosure(input)`
unfoldable pub require_continuation_closure :
    Runtime → Access → GateEnv → Outcome ClosureError (Option (CanonicalVerdict ClosureReason))
unfolding continuation_closure_gate
require_continuation_closure r access env = required (continuation_closure_gate r access env)
