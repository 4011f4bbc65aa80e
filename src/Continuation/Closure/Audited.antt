-- ===== src/Continuation/Closure/Audited.antt =====
-- What the closure gate of src/continuation/closure.ts has established when it passes.
pub mod Commitment
use ycm_harness.Common.{
  ◌≡◌, refl, ap, ◌∙◌, sym, inl, inr, String, true, false, not, ◌&&◌, and-eq-true_iff, Option, none,
  some, List, [], ◌∷◌, arith, In, find, find-some, is_empty, is_empty_iff, is_some, truthy, opt_eq,
  opt_eq_lem, eq_iff, ◌==◌, Bool-cases, Option-cases, not-false, not-true, test, test_iff, Outcome,
  returns, throws, Ends, Ends-at, Ends-bind, append-eq-nil, push_if, push_if-nil,
}
use ycm_harness.Continuation.Policy.{PolicyInput, input_of, is_policy_input}
use ycm_harness.Continuation.Policy.Evaluate.{Verdict, pass, fail, PolicyResult, sufficient_at}
use ycm_harness.Continuation.Policy.Ladder.{Ladder-sufficient_at}
use ycm_harness.Continuation.Policy.Replay.{evaluated, evaluate_total, evaluated_ok}
use ycm_harness.Continuation.Policy.Admissible.{Admissible, evaluate_pass_iff}
use ycm_harness.Continuation.Digests.{
  Reason, AuditPolicy, AuditRecord, AuditCommitment, ShadowContent, ShadowRecord, Routing, llm,
  no_agent_route, is_sha256, Runtime, protected_sha,
}
use ycm_harness.Continuation.Audit.{audit_commitment}
use ycm_harness.Continuation.Audit.Records.{AuditFault, is_pass}
use ycm_harness.Continuation.Shadow.{same_policy}
use ycm_harness.Continuation.Shadow.Records.{
  Verdict-discrete, Trace-discrete, Reasons-discrete, ShadowFault, CanonicalVerdict, is_llm,
  is_strict, verdict_of_record,
}
use ycm_harness.Continuation.Closure.{or_failure, closure_of, load_closure_verdict}
use ycm_harness.Continuation.Closure.Reasons.{
  Commitment-discrete, differs_given, response_mismatch, audit_reference_mismatch, ClosureReason,
  ProofBinding, Access, failure, read_proof, binding_reasons, audit_matches, policy_reasons,
  committed_reasons, judged, found_reasons, searched, read_audit_store, referred, audit_reasons,
}
use ycm_harness.Continuation.Closure.Audited.Commitment.{
  differs_given_lem, not_quiet, Backed, found-Backed,
}

-- The audit that a passing record refers to.
pub record Referred (r : Runtime) (access : Access) (c : ShadowContent) (input : ProofBinding)
    : Type 0 where
  pub by_model : c.routing ≡ llm
  pub audits : List AuditRecord
  pub read : read_audit_store r access ≡ returns audits
  pub audit : AuditRecord
  pub present : In audit audits
  pub referenced : c.audit_reference ≡ some audit.audit_id
  pub backed : Backed r c input audit

is_llm-llm : (x : Routing) → is_llm x ≡ true → x ≡ llm
is_llm-llm llm h = refl
is_llm-llm no_agent_route h = cc

searched-found :
    (r : Runtime) (c : ShadowContent) (input : ProofBinding) (id : String)
    (o : Outcome ClosureReason (List AuditRecord))
    → searched r c input id o ≡ returns []
    → (audits : List AuditRecord) × (o ≡ returns audits)
      × ((a : AuditRecord) × In a audits
          × (a.audit_id ≡ id)
          × (found_reasons r c input a ≡ returns []))
searched-found r c input id (throws reason) h = cc
searched-found r c input id (returns audits) h =
    elim (Option-cases (find (λ a. a.audit_id == id) audits)) [
      | inl missing ↦ absurd (not_quiet (rw missing at h))
      | inr (a, found) ↦
          let (i, e) = find-some _ audits a found in
          (audits, refl, (a, i, (eq_iff _ _).0 e, rw found at h))
    ]

referred-found :
    (r : Runtime) (access : Access) (c : ShadowContent) (input : ProofBinding) (o : Option String)
    → truthy o ≡ true
    → referred r access c input o ≡ returns []
    → (id : String) × (o ≡ some id)
      × (searched r c input id (read_audit_store r access) ≡ returns [])
referred-found r access c input none t h = cc
referred-found r access c input (some id) t h = (id, refl, rw (not-true (id == "") t) at h)

audit_reasons-Referred :
    (r : Runtime) (access : Access) (c : ShadowContent) (input : ProofBinding)
    → is_pass c.would_block_verdict ≡ true
    → audit_reasons r access c input ≡ returns []
    → Referred r access c input
unfolding audit_reasons
audit_reasons-Referred r access c input passing h =
    elim (Bool-cases (
      is_llm c.routing
      && c.audit_persisted
      && truthy c.audit_reference
      && is_some c.audit_commitment)) [
        | inr lacking ↦ absurd (not_quiet (rw (passing, lacking, audit_reasons) at h))
        | inl full ↦
            let (most, _) = (and-eq-true_iff _ _).0 full in
            let (some_more, reference) = (and-eq-true_iff _ _).0 most in
            let (routed, _) = (and-eq-true_iff _ _).0 some_more in
            let (id, given, s) =
              referred-found r access c input c.audit_reference reference
                (rw (passing, full, audit_reasons) at h) in
            let (audits, read, (a, i, same, quiet)) =
              searched-found r c input id (read_audit_store r access) s in
            record {
              by_model = is_llm-llm c.routing routed;
              audits = audits;
              read = read;
              audit = a;
              present = i;
              referenced = given ∙ ap some (sym same);
              backed = found-Backed r c input a passing quiet;
            }
      ]

-- What the gate has established of a stored record.
pub record Authentic (r : Runtime) (access : Access) (input : ProofBinding) (s : ShadowRecord)
    : Type 0 where
  pub verdict : s.content.would_block_verdict ≡ pass
  pub parent : s.content.parent_sha256 ≡ protected_sha r "parent" input.parent_id
  pub run : s.content.run_sha256 ≡ protected_sha r "run" input.run_id
  pub session : s.content.session_sha256 ≡ protected_sha r "session" input.session_id
  pub response :
      (t : String)
      → input.response_text ≡ some t
      → s.content.response_sha256 ≡ protected_sha r "response" t
  pub audit_reference :
      (a : String) → input.audit_reference ≡ some a → s.content.audit_reference ≡ some a
  pub referred : Referred r access s.content input

differ-false : (s t : String) → not (s == t) ≡ false → s ≡ t
differ-false s t h = (eq_iff s t).0 (not-false (s == t) h)

binding-quiet :
    (r : Runtime) (c : ShadowContent) (input : ProofBinding)
    → binding_reasons r c input ≡ []
    → (c.parent_sha256 ≡ protected_sha r "parent" input.parent_id)
      × (c.run_sha256 ≡ protected_sha r "run" input.run_id)
      × (c.session_sha256 ≡ protected_sha r "session" input.session_id)
      × ((t : String)
          → input.response_text ≡ some t
          → c.response_sha256 ≡ protected_sha r "response" t)
      × ((a : String) → input.audit_reference ≡ some a → c.audit_reference ≡ some a)
unfolding binding_reasons
binding-quiet r c input h =
    let (a, h1) = (append-eq-nil _ _).0 h in
    let (b, h2) = (append-eq-nil _ _).0 h1 in
    let (d, h3) = (append-eq-nil _ _).0 h2 in
    let (t, a') =
      (append-eq-nil
          (push_if
            (differs_given input.response_text
              (λ t. not (c.response_sha256 == protected_sha r "response" t)))
            response_mismatch)
          (push_if (differs_given input.audit_reference (λ a. not (opt_eq c.audit_reference a)))
            audit_reference_mismatch)).0
        h3 in
    (
      differ-false _ _ ((push_if-nil _ _).0 a),
      differ-false _ _ ((push_if-nil _ _).0 b),
      differ-false _ _ ((push_if-nil _ _).0 d),
      λ s e. differ-false _ _ (
          differs_given_lem input.response_text
            (λ t. not (c.response_sha256 == protected_sha r "response" t))
            ((push_if-nil _ response_mismatch).0 t) s e),
      λ s e. (opt_eq_lem _ _).0 (
          not-false _ (
            differs_given_lem input.audit_reference (λ a. not (opt_eq c.audit_reference a))
              ((push_if-nil _ audit_reference_mismatch).0 a') s e)),
    )

pub verdict_of_record-verdict :
    (s : ShadowRecord) (v : CanonicalVerdict Reason)
    → verdict_of_record s ≡ returns v
    → v.verdict ≡ s.content.would_block_verdict
unfolding verdict_of_record
verdict_of_record-verdict s v h = ground arith

or_failure-passes :
    (id : String) (reasons : List ClosureReason) (v : CanonicalVerdict Reason)
    → (or_failure id reasons v).verdict ≡ pass
    → (reasons ≡ []) × (v.verdict ≡ pass)
unfolding failure
or_failure-passes id [] v h = (refl, h)
or_failure-passes id (x ∷ xs) v h = cc

pub pass-is_pass : (v : Verdict) → v ≡ pass → is_pass v ≡ true
pass-is_pass v e = rw e refl

closure_of-Authentic :
    (r : Runtime) (access : Access) (input : ProofBinding) (s : ShadowRecord)
    → Ends (λ v. v.verdict ≡ pass → Authentic r access input s) (closure_of r access input s)
unfolding closure_of failure
closure_of-Authentic r access input s = elim (Bool-cases (is_strict s.content.version)) [
  | inr old ↦ rw old (Ends-at (λ e. cc))
  | inl new ↦ rw new (
      Ends-bind λ v given. elim (Bool-cases (is_empty (binding_reasons r s.content input))) [
        | inr unbound ↦ rw unbound (Ends-at (λ e. cc))
        | inl bound ↦ rw bound (
            Ends-bind λ reasons found. Ends-at λ e.
              let (quiet, passed) = or_failure-passes input.proof_id reasons v e in
              let verdict = sym (verdict_of_record-verdict s v given) ∙ passed in
              let ids = binding-quiet r s.content input ((is_empty_iff _).0 bound) in
              record {
                verdict = verdict;
                parent = ids.0;
                run = ids.1;
                session = ids.2;
                response = ids.3;
                audit_reference = ids.4;
                referred =
                    audit_reasons-Referred r access s.content input
                      (pass-is_pass s.content.would_block_verdict verdict)
                      (found ∙ ap returns quiet);
              })
      ])
]

-- A proof passes only if a record with its id can be read that passed by a model's route under
-- the same parent, run and session, and of the response and with the audit reference that the
-- input names, if it names them, and that refers to an audit in the store: of the scheduled
-- finalizer in shadow mode, of the same parent, run, session and response, with the record's
-- verdict and reasons and the committed digests, and whose policy, evaluated again on its trace,
-- gives the verdict, the reasons and the trace of the audit, passes, and has the model's stage as
-- the sufficient one.
pub load_closure_verdict-Authentic :
    (r : Runtime) (access : Access) (input : ProofBinding) (v : CanonicalVerdict ClosureReason)
    → load_closure_verdict r access input ≡ returns v
    → v.verdict ≡ pass
    → (s : ShadowRecord) × (read_proof r access input.proof_id ≡ returns s)
      × Authentic r access input s
unfolding load_closure_verdict failure
load_closure_verdict-Authentic r access input v h passed =
    elim (Bool-cases (is_sha256 input.proof_id)) [
      | inr bad ↦ let e = rw (bad, load_closure_verdict) at h in cc
      | inl ok ↦ go (read_proof r access input.proof_id) refl (rw (ok, load_closure_verdict) at h)
    ]
  where
    go :
        (o : Outcome ClosureReason ShadowRecord)
        → read_proof r access input.proof_id ≡ o
        → (elim o [
          | throws reason ↦ returns (failure input.proof_id (reason ∷ []) none)
          | returns s ↦ closure_of r access input s
        ])
          ≡ returns v
        → (s : ShadowRecord) × (read_proof r access input.proof_id ≡ returns s)
          × Authentic r access input s
    go (throws reason) e q = cc
    go (returns s) e q = (s, e, (closure_of-Authentic r access input s).holds v q passed)
