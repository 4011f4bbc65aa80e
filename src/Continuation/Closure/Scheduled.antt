-- ===== src/Continuation/Closure/Scheduled.antt =====
-- The closure gate of src/continuation/closure.ts takes what src/continuation/shadow.ts stores of
-- a response.
pub mod Exact
use ycm_harness.Common.{
  ◌≡◌, refl, ap, ◌∙◌, sym, subst, inl, inr, String, Bool, true, false, ◌&&◌, and-eq-true_iff,
  Option, none, some, List, [], arith, In, find, is_some, truthy, eq_refl, ◌==◌, Option-cases,
  not-true, test_iff, Outcome, returns, throws, ◌>>=◌,
}
use ycm_harness.Continuation.Policy.Evaluate.{pass, PolicyResult, sufficient_at}
use ycm_harness.Continuation.Policy.Replay.{evaluated}
use ycm_harness.Continuation.Store.{read-find}
use ycm_harness.Continuation.Digests.{
  Reason, FinalizerResult, AuditPolicy, AuditRecord, AuditCommitment, ShadowContent, ShadowRecord,
  ShadowVersion, strict, llm, is_sha256, Runtime, protected_sha,
}
use ycm_harness.Continuation.Audit.{
  AuditFiles, read_audits, id_of_audit, audit_commitment, Disk, with_policy, policy_input,
  audited_result, finalize_audited,
}
use ycm_harness.Continuation.Audit.Records.{
  AuditFault, AuditContext, is_pass, audit_is_sound, invalid_stored_audit,
}
use ycm_harness.Continuation.Shadow.{read_shadows, same_policy, exact_with, is_exact_audit}
use ycm_harness.Continuation.Shadow.Records.{
  Verdict-discrete, Reasons-discrete, ShadowFault, ScheduledContext, CanonicalVerdict, is_llm,
  is_strict, refined, is_shadow_content, verdict_of_record, ShadowOutcome, FailurePair,
  some_commitment, commitment_of, shadow_content, sealed_shadow,
}
use ycm_harness.Continuation.Shadow.Observe.{
  observation_verdict, FinalizerBlock, ScheduledResult, finalize_scheduled_response,
}
use ycm_harness.Continuation.Shadow.Observe.Observed.{audit_context, Deps, Stores, observe}
use ycm_harness.Continuation.Shadow.Observe.Kept.{Kept, verdict-kept, observe-Kept}
use ycm_harness.Continuation.Shadow.Stored.{persist-found, built-sealed, outcome-Exact}
use ycm_harness.Continuation.Closure.{as_stored, load_closure_verdict}
use ycm_harness.Continuation.Closure.Reasons.{
  proof_malformed, proof_not_found, audit_malformed, ProofBinding, Access, relabel, or_throw,
  proof_in, read_proof, read_audit_store, binding_reasons, audit_matches, audit_reasons,
}
use ycm_harness.Continuation.Closure.Audited.{pass-is_pass, verdict_of_record-verdict}
use ycm_harness.Continuation.Closure.Audited.Commitment.{is_pass-pass}
use ycm_harness.Continuation.Closure.Accepts.{
  model_run-policy_reasons, found_reasons-quiet, judged-quiet, audit_reasons-quiet, load-accepts,
}
use ycm_harness.Continuation.Closure.Scheduled.Exact.{
  exact-parts_of, binding_of, exact-matches, binding-quiet, strict-full, verdict-proof_id,
  commitment-audit, finalize-policy,
}

-- What the live adapter runs with: the result of `finalizeContinuationLedgerLive`, what the disk
-- and the scans for secrets do to the audit and to the record, whether the lease is given, and the
-- time.
pub record Wiring : Type 0 where
  pub validation : FinalizerResult
  pub audit_disk : Disk
  pub audit_clean : Bool
  pub lease : Bool
  pub disk : Disk
  pub clean : Bool
  pub now : String

-- The dependencies with `finalizeContinuationLedgerLiveAudited` as the audited finalizer.
abbrev pub live_deps : Runtime → Wiring → String → ScheduledContext → Deps
live_deps r w response context = record {
  finalize = λ audits.
      let (result, audits') =
        finalize_audited r w.audit_disk w.audit_clean w.now response w.validation
          (audit_context context) audits in
      (some result, audits');
  lease = w.lease;
  disk = w.disk;
  clean = w.clean;
  now = w.now;
}

abbrev pub access_to : Stores → Access
access_to stores = record { shadows = some stores.shadows; audits = some stores.audits }

read_proof-found :
    (r : Runtime) (stores : Stores) (id : String) (l : List ShadowRecord) (s : ShadowRecord)
    → read_shadows r stores.shadows ≡ returns l
    → find (λ x. x.shadow_id == id) l ≡ some s
    → read_proof r (access_to stores) id ≡ returns s
unfolding read_proof
read_proof-found r stores id l s read found =
    ap (λ o. proof_in id (relabel o proof_malformed)) read
    ∙ ap (λ o. or_throw o proof_not_found) found

read_audit_store-found :
    (r : Runtime) (stores : Stores) (l : List AuditRecord)
    → read_audits r stores.audits ≡ returns l
    → read_audit_store r (access_to stores) ≡ returns l
read_audit_store-found r stores l read = ap (λ o. relabel o audit_malformed) read

find-audit :
    (r : Runtime) (audits : AuditFiles) (l : List AuditRecord) (a : AuditRecord)
    → read_audits r audits ≡ returns l
    → In a l
    → find (λ x. x.audit_id == a.audit_id) l ≡ some a
unfolding read_audits
find-audit r audits l a read i =
    read-find id_of_audit (audit_is_sound r) invalid_stored_audit [] audits l read a i

abbrev reference_of : Option AuditRecord → Option String
reference_of o = elim o [ none ↦ none | some a ↦ some a.audit_id ]

module _ (r : Runtime) (w : Wiring) (response : String) (context : ScheduledContext)
    (by_model : context.routing ≡ llm)
    (four : sufficient_at 4 (evaluated (some context.execution_policy)).trace.attempts ≡ true)
    (stores stores' : Stores) (s : ShadowRecord) (v : CanonicalVerdict Reason)
    (given : verdict_of_record s ≡ returns v) (passed : v.verdict ≡ pass) where
  -- The gate's check of the audit, on the content that was built.
  content-quiet :
      (k : Kept r (live_deps r w response context) response context stores stores' s)
      → (m : Option AuditCommitment) → commitment_of r k.outcome.audit ≡ returns m
      → is_shadow_content (shadow_content r response context k.outcome k.pair m) ≡ true
      → k.outcome.verdict ≡ pass
      → (a : AuditRecord) → k.outcome.audit ≡ some a
      → audit_reasons r
          (access_to stores')
          (shadow_content r response context k.outcome k.pair m)
          (binding_of response context v.proof_id)
        ≡ returns []
  unfolding shadow_content
  content-quiet k m commits ok passing a e =
      let c = shadow_content r response context k.outcome k.pair m in
      let full =
        strict-full c refl ok (pass-is_pass k.outcome.verdict passing) (ap is_llm by_model) in
      let x =
        outcome-Exact r response context (evaluated (some context.execution_policy)) _ _ a
          (ap (λ (o : ShadowOutcome). o.audit) (sym k.by_model) ∙ e) in
      let parts = exact-parts_of r response context x.result _ a x.exact in
      let status : k.outcome.verdict ≡ x.result.status =
        ap (λ (o : ShadowOutcome). o.verdict) k.by_model ∙ x.verdict in
      let reasons : k.outcome.reasons ≡ x.result.reasons =
        ap (λ (o : ShadowOutcome). o.reasons) k.by_model ∙ x.reasons in
      let policy_passed =
        finalize-policy r w.audit_disk w.audit_clean w.now response w.validation
          (audit_context context) stores.audits
          (finalizer-status x.given (x.passes (sym status ∙ passing))) in
      let (d, committed, digests) = commitment-audit r k.outcome.audit a m e commits in
      let (most, _) = (and-eq-true_iff _ _).0 full in
      let (_, reference) = (and-eq-true_iff _ _).0 most in
      let refers : c.audit_reference ≡ some a.audit_id = ap reference_of e in
      audit_reasons-quiet r (access_to stores') c (binding_of response context v.proof_id)
        a.audit_id x.records a full refers (not-true _ (ap truthy (sym refers) ∙ reference))
        (read_audit_store-found r stores' x.records (ap (read_audits r) k.audits ∙ x.read))
        (find-audit r _ x.records a x.read x.present)
        (found_reasons-quiet r c (binding_of response context v.proof_id) a parts.audited
          parts.given
          (judged-quiet r c (binding_of response context v.proof_id) a parts.audited d
            (exact-matches r response v.proof_id context x.result _ a c parts status reasons)
            committed digests
            (model_run-policy_reasons context.execution_policy policy_passed four c parts.audited
              (pass-is_pass k.outcome.verdict passing) parts.agrees)))
    where
      finalizer-status :
          {f g : FinalizerResult} → some f ≡ some g → g.status ≡ pass → f.status ≡ pass
      finalizer-status e h = ground arith

  -- What a kept record of a passing verdict is, as the gate reads it.
  Kept-accepted :
      (k : Kept r (live_deps r w response context) response context stores stores' s)
      → (old : List ShadowRecord) → read_shadows r stores.shadows ≡ returns old
      → ((x : ShadowRecord) → In x old → (x.shadow_id == s.shadow_id) ≡ false)
      → load_closure_verdict r (access_to stores') (binding_of response context v.proof_id)
        ≡ returns (as_stored v)
  unfolding sealed_shadow protected_sha shadow_content
  Kept-accepted k old read fresh =
      let (same, (l, after, found)) =
        persist-found r w.disk k.candidate s stores.shadows old read fresh k.persisted in
      let (m, commits, ok, sealed) =
        built-sealed r w.clean response context k.outcome k.pair w.now k.candidate k.built in
      let c = shadow_content r response context k.outcome k.pair m in
      let content : s.content ≡ c = ap (λ (t : ShadowRecord). t.content) (same ∙ sealed) in
      let id : v.proof_id ≡ s.shadow_id = verdict-proof_id s v given in
      let digest : v.proof_id ≡ protected_sha r "content" (r.json_shadow_content c) =
        id ∙ ap (λ (t : ShadowRecord). t.shadow_id) (same ∙ sealed) in
      let passing : k.outcome.verdict ≡ pass =
        ap (λ (d : ShadowContent). d.would_block_verdict) (sym content)
        ∙ sym (verdict_of_record-verdict s v given)
        ∙ passed in
      let input = binding_of response context v.proof_id in
      load-accepts r (access_to stores') input s v (ap is_sha256 digest ∙ r.sha_hex _)
        (read_proof-found r stores' v.proof_id l s (ap (read_shadows r) k.shadows ∙ after)
          (ap (λ (d : String). find (λ x. x.shadow_id == d) l) id ∙ found))
        (ap (λ (d : ShadowContent). is_strict d.version) content) given
        (ap (λ (d : ShadowContent). binding_reasons r d input) content
          ∙ binding-quiet r response v.proof_id context k.outcome k.pair m)
        (ap (λ (d : ShadowContent). audit_reasons r (access_to stores') d input) content
          ∙ audited k m commits ok passing)
    where
      not_persisted :
          (b c d : Bool) (o : Option AuditRecord) → o ≡ none → (b && is_some o && c && d) ≡ true → ⊥
      not_persisted b c d o e h = ground arith

      audited :
          (k : Kept r (live_deps r w response context) response context stores stores' s)
          → (m : Option AuditCommitment) → commitment_of r k.outcome.audit ≡ returns m
          → is_shadow_content (shadow_content r response context k.outcome k.pair m) ≡ true
          → k.outcome.verdict ≡ pass
          → audit_reasons r
              (access_to stores')
              (shadow_content r response context k.outcome k.pair m)
              (binding_of response context v.proof_id)
            ≡ returns []
      audited k m commits ok passing = elim (Option-cases k.outcome.audit) [
        | inr (a, e) ↦ content-quiet k m commits ok passing a e
        | inl missing ↦
            let full =
              strict-full (shadow_content r response context k.outcome k.pair m) refl ok
                (pass-is_pass k.outcome.verdict passing) (ap is_llm by_model) in
            absurd (
              not_persisted (is_llm context.routing) (truthy (reference_of k.outcome.audit))
                (is_some m) k.outcome.audit missing full)
      ]

bind-returns {ℓ κ} :
    {A : Type ℓ} {B : Type κ} {E : Type 0} (o : Outcome E A) (f : A → Outcome E B) (b : B)
    → (o >>= f) ≡ returns b
    → (a : A) × (o ≡ returns a) × (f a ≡ returns b)
unfolding ◌>>=◌
bind-returns (returns a) f b h = (a, refl, h)
bind-returns (throws e) f b h = cc

closure-verdict :
    (o : Outcome ShadowFault (Option FinalizerBlock)) (response : String)
    (verdict : Option (CanonicalVerdict Reason)) (res : ScheduledResult)
    → (o >>= λ closure.
        returns (record { response_text = response; closure = closure; verdict = verdict }))
      ≡ returns res
    → verdict ≡ res.verdict
unfolding ◌>>=◌
closure-verdict (returns closure) response verdict res h = ground arith
closure-verdict (throws e) response verdict res h = cc

finalized-verdict :
    (r : Runtime) (deps : Deps) (mode : Option String) (response : String)
    (context : ScheduledContext) (stores stores' : Stores) (res : ScheduledResult)
    → finalize_scheduled_response r deps mode response context stores ≡ (returns res, stores')
    → (observation_verdict r response context (observe r deps response context stores).0
        ≡ returns res.verdict)
      × ((observe r deps response context stores).1 ≡ stores')
unfolding finalize_scheduled_response
finalized-verdict r deps mode response context stores stores' res h =
    let (verdict, made, rest) = bind-returns _ _ res (ap (λ z. z.0) h) in
    (made ∙ ap returns (closure-verdict _ response verdict res rest), ap (λ z. z.1) h)

-- When the scheduled finalizer, with the audited finalizer behind it, gives a passing verdict on
-- the response of a model whose policy has the model's stage as its sufficient one, and no record
-- of that id was in the store, then the gate authenticates the proof against the stores that are
-- left, for the same response, parent, run and session, and gives that verdict. So it does in
-- either mode of the finalizer.
pub scheduled-accepted :
    (r : Runtime) (w : Wiring) (mode : Option String) (response : String)
    (context : ScheduledContext) (stores stores' : Stores) (res : ScheduledResult)
    (v : CanonicalVerdict Reason) (old : List ShadowRecord)
    → context.routing ≡ llm
    → sufficient_at 4 (evaluated (some context.execution_policy)).trace.attempts ≡ true
    → finalize_scheduled_response r (live_deps r w response context) mode response context stores
      ≡ (returns res, stores')
    → res.verdict ≡ some v
    → v.verdict ≡ pass
    → read_shadows r stores.shadows ≡ returns old
    → ((x : ShadowRecord) → In x old → (x.shadow_id == v.proof_id) ≡ false)
    → load_closure_verdict r (access_to stores') (binding_of response context v.proof_id)
      ≡ returns (as_stored v)
scheduled-accepted r w mode response context stores stores' res v old by_model four h verdict passed
      read fresh =
    let deps = live_deps r w response context in
    let (made, left) = finalized-verdict r deps mode response context stores stores' res h in
    let (s, kept, whole, given) =
      verdict-kept r response context (observe r deps response context stores).0 v
        (made ∙ ap returns verdict) passed in
    let id : v.proof_id ≡ s.shadow_id = verdict-proof_id s v given in
    let k =
      observe-Kept r deps response context stores s by_model
        (observe r deps response context stores) refl kept whole in
    subst
      (λ (z : Stores).
        load_closure_verdict r (access_to z) (binding_of response context v.proof_id)
        ≡ returns (as_stored v))
      left
      (Kept-accepted r w response context by_model four stores
        (observe r deps response context stores).1 s v given passed k old read
        (λ x i. ap (λ (d : String). x.shadow_id == d) (sym id) ∙ fresh x i))
