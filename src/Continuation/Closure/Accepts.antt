-- ===== src/Continuation/Closure/Accepts.antt =====
-- When the closure gate of src/continuation/closure.ts passes a proof on.

use ycm_harness.Common.{
  ◌≡◌, refl, ap, ◌∙◌, sym, inl, inr, String, true, false, ◌&&◌, and-eq-true_iff, some, List, [],
  ◌∷◌, arith, find, is_empty, is_some, truthy, ◌==◌, Bool-cases, test_iff, returns, ◌>>=◌,
}
use ycm_harness.Continuation.Policy.{PolicyInput, input_of}
use ycm_harness.Continuation.Policy.Evaluate.{pass, PolicyResult, sufficient_at}
use ycm_harness.Continuation.Policy.Ladder.{Ladder-sufficient_at}
use ycm_harness.Continuation.Policy.Replay.{evaluated, evaluated_ok, evaluated_replay}
use ycm_harness.Continuation.Digests.{
  Reason, AuditPolicy, AuditRecord, AuditCommitment, ShadowContent, ShadowRecord, is_sha256,
  Runtime,
}
use ycm_harness.Continuation.Audit.{audit_commitment}
use ycm_harness.Continuation.Audit.Records.{is_pass}
use ycm_harness.Continuation.Shadow.{same_policy}
use ycm_harness.Continuation.Shadow.Records.{
  Verdict-discrete, PolicyReasons-discrete, Trace-discrete, CanonicalVerdict, is_llm, is_strict,
  verdict_of_record,
}
use ycm_harness.Continuation.Closure.{as_stored, closure_of, load_closure_verdict}
use ycm_harness.Continuation.Closure.Reasons.{
  Commitment-discrete, ProofBinding, Access, read_proof, binding_reasons, audit_matches,
  policy_reasons, committed_reasons, judged, found_reasons, read_audit_store, referred,
  audit_reasons,
}
use ycm_harness.Continuation.Closure.Audited.{pass-is_pass}
use ycm_harness.Continuation.Closure.Audited.Commitment.{passed-Admissible}

same_policy_of :
    (p : AuditPolicy) (policy : PolicyResult)
    → p.verdict ≡ policy.verdict
    → p.reasons ≡ policy.reasons
    → p.trace ≡ policy.trace
    → same_policy policy p ≡ true
same_policy_of p policy v q t = (and-eq-true_iff _ _).1 (
  (test_iff (Verdict-discrete _ _)).1 v,
  (and-eq-true_iff _ _).1
      ((test_iff (PolicyReasons-discrete _ _)).1 q, (test_iff (Trace-discrete _ _)).1 t),
)

pub same_policy-parts :
    (p : AuditPolicy) (policy : PolicyResult)
    → same_policy policy p ≡ true
    → (p.verdict ≡ policy.verdict) × (p.reasons ≡ policy.reasons) × (p.trace ≡ policy.trace)
same_policy-parts p policy h =
    let (a, b) = (and-eq-true_iff _ _).0 h in
    let (c, d) = (and-eq-true_iff _ _).0 b in
    (
      (test_iff (Verdict-discrete _ _)).0 a,
      (test_iff (PolicyReasons-discrete _ _)).0 c,
      (test_iff (Trace-discrete _ _)).0 d,
    )

-- The policy of a run by the model: evaluating its trace gives it again, and it names calls.
module _ (i : PolicyInput) (passed : (evaluated (some i)).verdict ≡ pass)
    (four : sufficient_at 4 (evaluated (some i)).trace.attempts ≡ true) where
  model_run-replay : evaluated (some (input_of (evaluated (some i)).trace)) ≡ evaluated (some i)
  model_run-replay =
      let (ok, _) = passed-Admissible i passed in
      rw (evaluated_ok i ok) (evaluated_replay i ok ∙ evaluated_ok i ok)

  model_run-calls :
      (sufficient_at 0 (evaluated (some i)).trace.attempts ≡ false)
      × (is_empty (evaluated (some i)).trace.model_invocations ≡ false)
  model_run-calls =
      let (_, good) = passed-Admissible i passed in
      let at = Ladder-sufficient_at good.step in
      let step : good.step ≡ 4 =
        sym ((at 4 (evaluated (some i)).trace.attempts good.ladder).0 four) in
      (
        elim (Bool-cases (sufficient_at 0 (evaluated (some i)).trace.attempts)) [
          | inl first ↦
              let zeroth = (at 0 (evaluated (some i)).trace.attempts good.ladder).0 first in
              absurd (omega arith)
          | inr e ↦ e
        ],
        elim (Bool-cases (is_empty (evaluated (some i)).trace.model_invocations)) [
          | inl empty ↦ absurd (
              good.model_called step
                (is_empty-nil (evaluated (some i)).trace.model_invocations empty))
          | inr e ↦ e
        ],
      )
    where
      is_empty-nil : {A : Type 0} (xs : List A) → is_empty xs ≡ true → xs ≡ []
      is_empty-nil [] e = refl
      is_empty-nil (x ∷ xs) e = cc

  pub model_run-policy_reasons :
      (c : ShadowContent) (p : AuditPolicy)
      → is_pass c.would_block_verdict ≡ true
      → same_policy (evaluated (some i)) p ≡ true
      → policy_reasons c p ≡ []
  unfolding policy_reasons
  model_run-policy_reasons c p passing agrees =
      let (v, q, t) = same_policy-parts p (evaluated (some i)) agrees in
      let (not_first, calls) = model_run-calls in
      let again : evaluated (some (input_of p.trace)) ≡ evaluated (some i) =
        ap (λ (u : _). evaluated (some (input_of u))) t ∙ model_run-replay in
      let still : same_policy (evaluated (some (input_of p.trace))) p ≡ true =
        same_policy_of p (evaluated (some (input_of p.trace)))
          (v ∙ ap (λ (e : PolicyResult). e.verdict) (sym again))
          (q ∙ ap (λ (e : PolicyResult). e.reasons) (sym again))
          (t ∙ ap (λ (e : PolicyResult). e.trace) (sym again)) in
      rw
        (
          still,
          passing,
          pass-is_pass p.verdict (v ∙ passed),
          ap (λ (u : _). sufficient_at 0 u.attempts) t ∙ not_first,
          ap (λ (u : _). sufficient_at 4 u.attempts) t ∙ four,
          ap (λ (u : _). is_empty u.model_invocations) t ∙ calls,
        )
        refl

pub judged-quiet :
    (r : Runtime) (c : ShadowContent) (input : ProofBinding) (a : AuditRecord) (p : AuditPolicy)
    (k : AuditCommitment)
    → audit_matches r c input a ≡ true
    → c.audit_commitment ≡ some k
    → audit_commitment r a ≡ returns k
    → policy_reasons c p ≡ []
    → judged r c input a (some p) ≡ returns []
unfolding judged committed_reasons
judged-quiet r c input a p k agrees committed digests quiet =
    let same = (test_iff (Commitment-discrete c.audit_commitment (some k))).1 committed in
    rw (agrees, ap is_some committed, digests, same, quiet) refl

pub found_reasons-quiet :
    (r : Runtime) (c : ShadowContent) (input : ProofBinding) (a : AuditRecord) (p : AuditPolicy)
    → a.content.policy ≡ some p
    → judged r c input a (some p) ≡ returns []
    → found_reasons r c input a ≡ returns []
unfolding found_reasons
found_reasons-quiet r c input a p given quiet = ap (judged r c input a) given ∙ quiet

pub audit_reasons-quiet :
    (r : Runtime) (access : Access) (c : ShadowContent) (input : ProofBinding) (id : String)
    (l : List AuditRecord) (a : AuditRecord)
    → (is_llm c.routing
        && c.audit_persisted
        && truthy c.audit_reference
        && is_some c.audit_commitment)
      ≡ true
    → c.audit_reference ≡ some id
    → (id == "") ≡ false
    → read_audit_store r access ≡ returns l
    → find (λ x. x.audit_id == id) l ≡ some a
    → found_reasons r c input a ≡ returns []
    → audit_reasons r access c input ≡ returns []
unfolding audit_reasons
audit_reasons-quiet r access c input id l a full ref nonempty read found quiet =
    elim (Bool-cases (is_pass c.would_block_verdict)) [
      | inl e ↦ rw (e, full) search
      | inr e ↦ rw e search
    ]
  where
    search : referred r access c input c.audit_reference ≡ returns []
    search = rw (ref, nonempty, read, found) quiet

pub load-accepts :
    (r : Runtime) (access : Access) (input : ProofBinding) (s : ShadowRecord)
    (v : CanonicalVerdict Reason)
    → is_sha256 input.proof_id ≡ true
    → read_proof r access input.proof_id ≡ returns s
    → is_strict s.content.version ≡ true
    → verdict_of_record s ≡ returns v
    → binding_reasons r s.content input ≡ []
    → audit_reasons r access s.content input ≡ returns []
    → load_closure_verdict r access input ≡ returns (as_stored v)
unfolding load_closure_verdict closure_of ◌>>=◌
load-accepts r access input s v id found strict given bound quiet =
    rw (id, found, strict, given, bound, quiet) refl
