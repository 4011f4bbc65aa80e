-- ===== src/Continuation/Closure/Scheduled/Exact.antt =====
-- What src/continuation/shadow.ts found of an audit that it takes as the one of its response.
use ycm_harness.Common.{
  ◌≡◌, refl, ap, ◌∙◌, sym, String, Bool, true, ◌&&◌, and-eq-true_iff, Option, none, some, [], arith,
  is_some, truthy, eq_refl, ◌==◌, test_iff, Outcome, returns, throws,
}
use ycm_harness.Continuation.Policy.Evaluate.{pass, PolicyResult}
use ycm_harness.Continuation.Policy.Replay.{evaluated}
use ycm_harness.Continuation.Digests.{
  Reason, FinalizerResult, AuditPolicy, AuditRecord, AuditCommitment, ShadowContent, ShadowRecord,
  ShadowVersion, strict, Runtime, protected_sha,
}
use ycm_harness.Continuation.Audit.{
  AuditFiles, audit_commitment, Disk, with_policy, policy_input, audited_result, finalize_audited,
}
use ycm_harness.Continuation.Audit.Records.{AuditFault, AuditContext, is_pass}
use ycm_harness.Continuation.Shadow.{same_policy, exact_with, is_exact_audit}
use ycm_harness.Continuation.Shadow.Records.{
  Verdict-discrete, Reasons-discrete, ScheduledContext, CanonicalVerdict, is_llm, refined,
  is_shadow_content, verdict_of_record, ShadowOutcome, FailurePair, some_commitment, commitment_of,
  shadow_content,
}
use ycm_harness.Continuation.Closure.Reasons.{ProofBinding, binding_reasons, audit_matches}
use ycm_harness.Continuation.Closure.Audited.Commitment.{is_pass-pass}

-- What an exact audit has in common with the run.
pub record ExactParts (r : Runtime) (response : String) (context : ScheduledContext)
    (result : FinalizerResult) (policy : PolicyResult) (a : AuditRecord) : Type 0 where
  pub audited : AuditPolicy
  pub given : a.content.policy ≡ some audited
  pub agrees : same_policy policy audited ≡ true
  pub response_sha : (a.content.response_sha256 == r.sha response) ≡ true
  pub parent : (a.content.parent_sha256 == r.sha context.parent_id) ≡ true
  pub run : (a.content.run_sha256 == r.sha context.run_id) ≡ true
  pub session : (a.content.session_sha256 == r.sha context.session_id) ≡ true
  pub surface : (a.content.surface == "scheduled-finalizer") ≡ true
  pub mode : (a.content.mode == "shadow") ≡ true
  pub verdict : a.content.verdict ≡ result.status
  pub reasons : a.content.reasons ≡ result.reasons

exact-parts :
    (r : Runtime) (response : String) (context : ScheduledContext) (result : FinalizerResult)
    (policy : PolicyResult) (a : AuditRecord) (o : Option AuditPolicy)
    → a.content.policy ≡ o
    → exact_with r response context result policy a o ≡ true
    → ExactParts r response context result policy a
unfolding exact_with
exact-parts r response context result policy a none e h = cc
exact-parts r response context result policy a (some p) e h =
    let (h1, t1) = (and-eq-true_iff _ _).0 h in
    let (h2, t2) = (and-eq-true_iff _ _).0 t1 in
    let (h3, t3) = (and-eq-true_iff _ _).0 t2 in
    let (h4, t4) = (and-eq-true_iff _ _).0 t3 in
    let (h5, t5) = (and-eq-true_iff _ _).0 t4 in
    let (h6, t6) = (and-eq-true_iff _ _).0 t5 in
    let (h7, t7) = (and-eq-true_iff _ _).0 t6 in
    let (h8, t8) = (and-eq-true_iff _ _).0 t7 in
    let (h9, t9) = (and-eq-true_iff _ _).0 t8 in
    record {
      audited = p;
      given = e;
      agrees = t9;
      response_sha = h1;
      parent = h2;
      run = h3;
      session = h4;
      surface = h5;
      mode = h6;
      verdict = (test_iff (Verdict-discrete _ _)).0 h7;
      reasons = (test_iff (Reasons-discrete _ _)).0 h8;
    }

pub exact-parts_of :
    (r : Runtime) (response : String) (context : ScheduledContext) (result : FinalizerResult)
    (policy : PolicyResult) (a : AuditRecord)
    → is_exact_audit r response context result policy a ≡ true
    → ExactParts r response context result policy a
unfolding is_exact_audit
exact-parts_of r response context result policy a h =
    exact-parts r response context result policy a a.content.policy refl h

-- The binding of a proof to a response and its run.
abbrev pub binding_of : String → ScheduledContext → String → ProofBinding
binding_of response context proof = record {
  proof_id = proof;
  parent_id = context.parent_id;
  run_id = context.run_id;
  session_id = context.session_id;
  response_text = some response;
  audit_reference = none;
}

both : {b c : Bool} → b ≡ true → c ≡ true → (b && c) ≡ true
both p q = (and-eq-true_iff _ _).1 (p, q)

pub exact-matches :
    (r : Runtime) (response proof : String) (context : ScheduledContext) (result : FinalizerResult)
    (policy : PolicyResult) (a : AuditRecord) (c : ShadowContent)
    → ExactParts r response context result policy a
    → c.would_block_verdict ≡ result.status
    → c.reasons ≡ result.reasons
    → audit_matches r c (binding_of response context proof) a ≡ true
unfolding audit_matches
exact-matches r response proof context result policy a c x v q =
    let same_verdict =
      (test_iff (Verdict-discrete a.content.verdict c.would_block_verdict)).1 (x.verdict ∙ sym v) in
    let same_reasons =
      (test_iff (Reasons-discrete a.content.reasons c.reasons)).1 (x.reasons ∙ sym q) in
    both (ap is_some x.given) (
      both x.surface (
        both x.mode (
          both x.parent (
            both x.run
              (both x.session (both same_verdict (both same_reasons (rw x.response_sha refl))))))))

pub binding-quiet :
    (r : Runtime) (response proof : String) (context : ScheduledContext) (outcome : ShadowOutcome)
    (pair : FailurePair) (k : Option AuditCommitment)
    → binding_reasons r
        (shadow_content r response context outcome pair k)
        (binding_of response context proof)
      ≡ []
unfolding binding_reasons shadow_content
binding-quiet r response proof context outcome pair k =
    rw
      (
        eq_refl (protected_sha r "parent" context.parent_id),
        eq_refl (protected_sha r "run" context.run_id),
        eq_refl (protected_sha r "session" context.session_id),
        eq_refl (protected_sha r "response" response),
      )
      refl

refined-full :
    (w : ShadowVersion) (c : ShadowContent)
    → w ≡ strict
    → refined w c ≡ true
    → is_pass c.would_block_verdict ≡ true
    → is_llm c.routing ≡ true
    → (is_llm c.routing
        && c.audit_persisted
        && truthy c.audit_reference
        && is_some c.audit_commitment)
      ≡ true
unfolding refined
refined-full ShadowVersion.legacy c v ok passing by_llm = cc
refined-full ShadowVersion.current c v ok passing by_llm = cc
refined-full strict c v ok passing by_llm = ground arith

-- A passing record of the model's route refers to an audit and commits to it.
pub strict-full :
    (c : ShadowContent)
    → c.version ≡ strict
    → is_shadow_content c ≡ true
    → is_pass c.would_block_verdict ≡ true
    → is_llm c.routing ≡ true
    → (is_llm c.routing
        && c.audit_persisted
        && truthy c.audit_reference
        && is_some c.audit_commitment)
      ≡ true
unfolding is_shadow_content
strict-full c v ok passing by_llm =
    refined-full c.version c v ((and-eq-true_iff _ _).0 ok).1 passing by_llm

pub verdict-proof_id :
    (s : ShadowRecord) (v : CanonicalVerdict Reason)
    → verdict_of_record s ≡ returns v
    → v.proof_id ≡ s.shadow_id
unfolding verdict_of_record
verdict-proof_id s v h = ground arith

commitment-some :
    (o : Outcome AuditFault AuditCommitment) (k : Option AuditCommitment)
    → some_commitment o ≡ returns k
    → (d : AuditCommitment) × (k ≡ some d) × (o ≡ returns d)
commitment-some (returns d) k h = (d, ground arith, refl)
commitment-some (throws e) k h = cc

pub commitment-audit :
    (r : Runtime) (o : Option AuditRecord) (a : AuditRecord) (k : Option AuditCommitment)
    → o ≡ some a
    → commitment_of r o ≡ returns k
    → (d : AuditCommitment) × (k ≡ some d) × (audit_commitment r a ≡ returns d)
unfolding commitment_of
commitment-audit r o a k e h =
    commitment-some (audit_commitment r a) k (ap (commitment_of r) (sym e) ∙ h)

audited_result-passes :
    (result : FinalizerResult) (o : Outcome AuditFault AuditRecord)
    → (audited_result result o).status ≡ pass
    → result.status ≡ pass
audited_result-passes result (returns a) h = h
audited_result-passes result (throws e) h = cc

pub finalize-policy :
    (r : Runtime) (disk : Disk) (clean : Bool) (now response : String)
    (validation : FinalizerResult) (context : AuditContext) (audits : AuditFiles)
    → (finalize_audited r disk clean now response validation context audits).0.status ≡ pass
    → (evaluated (some (policy_input context.execution_policy))).verdict ≡ pass
unfolding finalize_audited with_policy
finalize-policy r disk clean now response validation context audits h =
    let policy = evaluated (some (policy_input context.execution_policy)) in
    let passed = audited_result-passes (with_policy validation policy) _ h in
    is_pass-pass policy.verdict (ground arith)
