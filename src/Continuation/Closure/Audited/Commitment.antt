-- ===== src/Continuation/Closure/Audited/Commitment.antt =====
-- What src/continuation/closure.ts checks of the audit that a proof commits to.
use ycm_harness.Common.{
  ◌≡◌, refl, ap, ◌∙◌, sym, inl, inr, true, and-eq-true_iff, Option, none, some, String, Bool, false,
  not-false, not-true, List, [], ◌∷◌, arith, is_some, eq_iff, Bool-cases, test, test_iff, Outcome,
  returns, throws,
}
use ycm_harness.Continuation.Policy.{PolicyInput, input_of, is_policy_input}
use ycm_harness.Continuation.Policy.Evaluate.{
  evaluate_execution_policy, Verdict, pass, fail, PolicyResult, sufficient_at,
}
use ycm_harness.Continuation.Policy.Ladder.{Ladder-sufficient_at}
use ycm_harness.Continuation.Policy.Replay.{evaluated, evaluate_total, evaluated_ok}
use ycm_harness.Continuation.Policy.Admissible.{Admissible, evaluate_pass_iff}
use ycm_harness.Continuation.Digests.{
  AuditPolicy, AuditRecord, AuditCommitment, ShadowContent, Runtime,
}
use ycm_harness.Continuation.Audit.{audit_commitment}
use ycm_harness.Continuation.Audit.Records.{AuditFault, is_pass}
use ycm_harness.Continuation.Shadow.{same_policy}
use ycm_harness.Continuation.Shadow.Records.{
  Verdict-discrete, Trace-discrete, PolicyReasons-discrete, Reasons-discrete, ShadowFault,
}
use ycm_harness.Continuation.Closure.Reasons.{
  Commitment-discrete, differs_given, ClosureReason, ProofBinding, audit_matches, policy_reasons,
  committed_reasons, judged, found_reasons,
}

pub not_quiet :
    {x : ClosureReason}
    → ◌≡◌ {A = Outcome ShadowFault (List ClosureReason)} (returns (x ∷ [])) (returns [])
    → ⊥
not_quiet e = cc

-- A policy whose evaluation agrees with what an audit says of it, and that passed with the model's
-- stage as the sufficient one.
pub record ModelRun (p : AuditPolicy) : Type 0 where
  pub replayed :
      (q : PolicyResult) × (evaluate_execution_policy (some (input_of p.trace)) ≡ returns q)
      × (q.verdict ≡ p.verdict)
      × (q.reasons ≡ p.reasons)
      × (q.trace ≡ p.trace)
  pub passed : p.verdict ≡ pass
  pub admissible : Admissible p.trace
  pub by_model : admissible.step ≡ 4

same_policy-trace :
    (policy : PolicyResult) (p : AuditPolicy)
    → same_policy policy p ≡ true
    → (p.verdict ≡ policy.verdict) × (p.reasons ≡ policy.reasons) × (p.trace ≡ policy.trace)
same_policy-trace policy p h =
    let (a, b) = (and-eq-true_iff _ _).0 h in
    let (c, d) = (and-eq-true_iff _ _).0 b in
    (
      (test_iff (Verdict-discrete _ _)).0 a,
      (test_iff (PolicyReasons-discrete _ _)).0 c,
      (test_iff (Trace-discrete _ _)).0 d,
    )

pub passed-Admissible :
    (i : PolicyInput)
    → (evaluated (some i)).verdict ≡ pass
    → (is_policy_input i ≡ true) × Admissible (evaluated (some i)).trace
passed-Admissible i h =
    let (ok, good) = (evaluate_pass_iff i (evaluated (some i)) (evaluate_total (some i))).0 h in
    (ok, rw (ap (λ (q : PolicyResult). q.trace) (evaluated_ok i ok)) good)

pub is_pass-pass : (v : Verdict) → is_pass v ≡ true → v ≡ pass
is_pass-pass pass h = refl
is_pass-pass fail h = cc

policy_reasons-ModelRun :
    (c : ShadowContent) (p : AuditPolicy)
    → is_pass c.would_block_verdict ≡ true
    → policy_reasons c p ≡ []
    → ModelRun p
unfolding policy_reasons
policy_reasons-ModelRun c p passing h =
    elim (Bool-cases (same_policy (evaluated (some (input_of p.trace))) p)) [
      | inr differs ↦ absurd (ground arith)
      | inl agrees ↦
          let (v, w, t) = same_policy-trace (evaluated (some (input_of p.trace))) p agrees in
          let q : is_pass p.verdict ≡ true = ground arith in
          let four : sufficient_at 4 p.trace.attempts ≡ true = ground arith in
          let passed = is_pass-pass p.verdict q in
          let good = (passed-Admissible (input_of p.trace) (sym v ∙ passed)).1 in
          let mine : Admissible p.trace = rw t good in
          record {
            replayed = (
              evaluated (some (input_of p.trace)),
              evaluate_total (some (input_of p.trace)),
              sym v,
              sym w,
              sym t,
            );
            passed = passed;
            admissible = mine;
            by_model = sym ((Ladder-sufficient_at mine.step 4 p.trace.attempts mine.ladder).0 four);
          }
    ]

-- What an audit has in common with a record and with the run that a closure is asked for.
pub record AuditedBy (r : Runtime) (c : ShadowContent) (input : ProofBinding) (a : AuditRecord)
    : Type 0 where
  pub surface : a.content.surface ≡ "scheduled-finalizer"
  pub mode : a.content.mode ≡ "shadow"
  pub parent : a.content.parent_sha256 ≡ r.sha input.parent_id
  pub run : a.content.run_sha256 ≡ r.sha input.run_id
  pub session : a.content.session_sha256 ≡ r.sha input.session_id
  pub verdict : a.content.verdict ≡ c.would_block_verdict
  pub reasons : a.content.reasons ≡ c.reasons
  pub response : (t : String) → input.response_text ≡ some t → a.content.response_sha256 ≡ r.sha t

-- The test of a value that is given, if there is one.
pub differs_given_lem :
    (o : Option String) (f : String → Bool)
    → differs_given o f ≡ false
    → (t : String) → o ≡ some t
    → f t ≡ false
differs_given_lem none f h t e = cc
differs_given_lem (some s) f h t e = ground arith

audit_matches-AuditedBy :
    (r : Runtime) (c : ShadowContent) (input : ProofBinding) (a : AuditRecord)
    → audit_matches r c input a ≡ true
    → AuditedBy r c input a
unfolding audit_matches
audit_matches-AuditedBy r c input a h =
    let (_, h1) = (and-eq-true_iff _ _).0 h in
    let (s, h2) = (and-eq-true_iff _ _).0 h1 in
    let (m, h3) = (and-eq-true_iff _ _).0 h2 in
    let (p, h4) = (and-eq-true_iff _ _).0 h3 in
    let (u, h5) = (and-eq-true_iff _ _).0 h4 in
    let (e, h6) = (and-eq-true_iff _ _).0 h5 in
    let (v, h7) = (and-eq-true_iff _ _).0 h6 in
    let (w, h8) = (and-eq-true_iff _ _).0 h7 in
    record {
      surface = (eq_iff _ _).0 s;
      mode = (eq_iff _ _).0 m;
      parent = (eq_iff _ _).0 p;
      run = (eq_iff _ _).0 u;
      session = (eq_iff _ _).0 e;
      verdict = (test_iff (Verdict-discrete _ _)).0 v;
      reasons = (test_iff (Reasons-discrete _ _)).0 w;
      response = λ t e.
          (eq_iff _ _).0
            (not-false _ (differs_given_lem input.response_text _ (not-true _ h8) t e));
    }

-- The audit behind a record: it matches, its digests are the committed ones, and its policy is a
-- model's run.
pub record Backed (r : Runtime) (c : ShadowContent) (input : ProofBinding) (a : AuditRecord)
    : Type 0 where
  pub matches : AuditedBy r c input a
  pub committed :
      (k : AuditCommitment) × (c.audit_commitment ≡ some k) × (audit_commitment r a ≡ returns k)
  pub policy : (p : AuditPolicy) × (a.content.policy ≡ some p) × ModelRun p

committed-ModelRun :
    (c : ShadowContent) (p : AuditPolicy) (o : Outcome AuditFault AuditCommitment)
    → is_pass c.would_block_verdict ≡ true
    → committed_reasons c p o ≡ returns []
    → (k : AuditCommitment) × (c.audit_commitment ≡ some k) × (o ≡ returns k) × ModelRun p
unfolding committed_reasons
committed-ModelRun c p (throws e) passing h = cc
committed-ModelRun c p (returns k) passing h =
    elim (Bool-cases (test (Commitment-discrete c.audit_commitment (some k)))) [
      | inl e ↦ (
        k,
        (test_iff (Commitment-discrete _ _)).0 e,
        refl,
        policy_reasons-ModelRun c p passing (ground arith),
      )
      | inr n ↦ absurd (ground arith)
    ]

judged-Backed :
    (r : Runtime) (c : ShadowContent) (input : ProofBinding) (a : AuditRecord)
    (o : Option AuditPolicy)
    → a.content.policy ≡ o
    → is_pass c.would_block_verdict ≡ true
    → judged r c input a o ≡ returns []
    → Backed r c input a
unfolding judged
judged-Backed r c input a none given passing h = absurd (not_quiet h)
judged-Backed r c input a (some p) given passing h = elim (Bool-cases (audit_matches r c input a)) [
  | inr differs ↦ absurd (not_quiet (rw differs at h))
  | inl agrees ↦ elim (Bool-cases (is_some c.audit_commitment)) [
    | inr none_given ↦ absurd (not_quiet (rw (agrees, none_given) at h))
    | inl some_given ↦
        let (k, e, f, run) =
          committed-ModelRun c p (audit_commitment r a) passing (rw (agrees, some_given) at h) in
        record {
          matches = audit_matches-AuditedBy r c input a agrees;
          committed = (k, e, f);
          policy = (p, given, run);
        }
  ]
]

pub found-Backed :
    (r : Runtime) (c : ShadowContent) (input : ProofBinding) (a : AuditRecord)
    → is_pass c.would_block_verdict ≡ true
    → found_reasons r c input a ≡ returns []
    → Backed r c input a
unfolding found_reasons
found-Backed r c input a passing h = judged-Backed r c input a a.content.policy refl passing h
