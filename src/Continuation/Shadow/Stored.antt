-- ===== src/Continuation/Shadow/Stored.antt =====
-- Records of src/continuation/shadow.ts: how one is built, that a stored one can be read again,
-- and the audit behind a passing outcome.
use ycm_harness.Common.{
  ◌≡◌, refl, ap, ◌∙◌, sym, inl, inr, String, Bool, true, false, Option, none, some, List, [], arith,
  In, find, find-some, ◌==◌, eq_refl, Bool-cases, if◌then◌else◌, Outcome, returns, throws, ◌>>=◌,
  ◌>>◌, require,
}
use ycm_harness.Continuation.Policy.Evaluate.{pass, PolicyResult}
use ycm_harness.Continuation.Store.{write, stored_record, read-write, read-find}
use ycm_harness.Continuation.Digests.{
  Reason, audit_persistence_failed, llm_route_invalid, FinalizerResult, AuditRecord,
  AuditCommitment, ShadowRecord, Runtime,
}
use ycm_harness.Continuation.Audit.{
  AuditFiles, read_audits, Disk, works, fails_before_write, fails_after_write,
}
use ycm_harness.Continuation.Shadow.{
  ShadowFiles, id_of_shadow, stored_shadow, read_shadows, write_and_read, keep_or_write,
  persist_shadow, no_agent_route_is_valid, is_exact_audit, includes, find_in, exact_audit_record,
  with_reason, llm_outcome,
}
use ycm_harness.Continuation.Shadow.Records.{
  ShadowFault, invalid_stored_shadow, ScheduledContext, ShadowOutcome, FailurePair,
  is_shadow_content, shadow_content, sealed_shadow, commitment_of, build_shadow, shadow_is_sound,
}

stored_record_sound :
    (r : Runtime) (name : String) (s t : ShadowRecord)
    → stored_shadow r name s ≡ returns t
    → (s ≡ t) × (shadow_is_sound r name s ≡ true)
unfolding stored_shadow stored_record
stored_record_sound r name s t h = elim (Bool-cases (shadow_is_sound r name s)) [
  | inl ok ↦ let e = rw ok at h in (ground arith, ok)
  | inr bad ↦ let e = rw bad at h in cc
]

written-found :
    (r : Runtime) (disk : Disk) (candidate s : ShadowRecord) (files : ShadowFiles)
    (old : List ShadowRecord)
    → read_shadows r files ≡ returns old
    → ((x : ShadowRecord) → In x old → (x.shadow_id == s.shadow_id) ≡ false)
    → (write_and_read r disk candidate files).0 ≡ returns s
    → (s ≡ candidate)
      × ((l : List ShadowRecord) × (read_shadows r (write_and_read r disk candidate files).1
            ≡ returns l)
          × (find (λ y. y.shadow_id == s.shadow_id) l ≡ some s))
unfolding write_and_read read_shadows
written-found r fails_before_write candidate s files old read fresh h = cc
written-found r fails_after_write candidate s files old read fresh h = cc
written-found r works candidate s files old read fresh h =
    let (same, ok) = stored_record_sound r candidate.record_sha256 candidate s h in
    let (l, after, there') =
      read-write id_of_shadow (shadow_is_sound r) invalid_stored_shadow [] candidate.record_sha256
        candidate files old read ok refl (λ x i. rw same (fresh x i)) in
    (
      sym same,
      (
        l,
        after,
        rw (← same) (
            read-find id_of_shadow (shadow_is_sound r) invalid_stored_shadow []
              (write candidate.record_sha256 candidate files) l after candidate there'),
      ),
    )

kept-found :
    (r : Runtime) (disk : Disk) (candidate s : ShadowRecord) (files : ShadowFiles)
    (old : List ShadowRecord) (o : Option ShadowRecord)
    → find (λ t. t.shadow_id == candidate.shadow_id) old ≡ o
    → read_shadows r files ≡ returns old
    → ((x : ShadowRecord) → In x old → (x.shadow_id == s.shadow_id) ≡ false)
    → (keep_or_write r disk candidate files o).0 ≡ returns s
    → (s ≡ candidate)
      × ((l : List ShadowRecord) × (read_shadows r (keep_or_write r disk candidate files o).1
            ≡ returns l)
          × (find (λ y. y.shadow_id == s.shadow_id) l ≡ some s))
kept-found r disk candidate s files old none found read fresh h =
    written-found r disk candidate s files old read fresh h
kept-found r disk candidate s files old (some x) found read fresh h =
    let same : x ≡ s = ground arith in
    let (i, e) = find-some _ old x found in
    absurd (
      differ (fresh x i)
        (ap (λ (t : ShadowRecord). x.shadow_id == t.shadow_id) (sym same) ∙ eq_refl x.shadow_id))
  where
    differ : {b : Bool} → b ≡ false → b ≡ true → ⊥
    differ p q = cc

-- A record of a new id that was persisted is the candidate, and is found in the store.
pub persist-found :
    (r : Runtime) (disk : Disk) (candidate s : ShadowRecord) (files : ShadowFiles)
    (old : List ShadowRecord)
    → read_shadows r files ≡ returns old
    → ((x : ShadowRecord) → In x old → (x.shadow_id == s.shadow_id) ≡ false)
    → (persist_shadow r disk candidate files).0 ≡ returns s
    → (s ≡ candidate)
      × ((l : List ShadowRecord) × (read_shadows r (persist_shadow r disk candidate files).1
            ≡ returns l)
          × (find (λ y. y.shadow_id == s.shadow_id) l ≡ some s))
unfolding persist_shadow
persist-found r disk candidate s files old read fresh h =
    let now =
      kept-found r disk candidate s files old (find (λ t. t.shadow_id == candidate.shadow_id) old)
        refl read fresh (rw read at h) in
    rw read now

-- How a record was built.
pub built-sealed :
    (r : Runtime) (clean : Bool) (response : String) (context : ScheduledContext)
    (outcome : ShadowOutcome) (pair : FailurePair) (now : String) (candidate : ShadowRecord)
    → build_shadow r clean response context outcome pair now ≡ returns candidate
    → (commitment : Option AuditCommitment) × (commitment_of r outcome.audit ≡ returns commitment)
      × (is_shadow_content (shadow_content r response context outcome pair commitment) ≡ true)
      × (candidate
          ≡ sealed_shadow r (shadow_content r response context outcome pair commitment) now)
unfolding build_shadow ◌>>=◌ ◌>>◌ require
built-sealed r false response context outcome pair now candidate h = cc
built-sealed r true response context outcome pair now candidate h =
    go (commitment_of r outcome.audit) refl h
  where
    go :
        (o : Outcome ShadowFault (Option AuditCommitment))
        → commitment_of r outcome.audit ≡ o
        → (o >>= λ commitment.
            let content = shadow_content r response context outcome pair commitment in
            require (is_shadow_content content) ShadowFault.invalid_shadow
            >> returns (sealed_shadow r content now))
          ≡ returns candidate
        → (commitment : Option AuditCommitment) × (commitment_of r outcome.audit
            ≡ returns commitment)
          × (is_shadow_content (shadow_content r response context outcome pair commitment) ≡ true)
          × (candidate
              ≡ sealed_shadow r (shadow_content r response context outcome pair commitment) now)
    go (throws e) p q = cc
    go (returns k) p q =
        elim (Bool-cases (is_shadow_content (shadow_content r response context outcome pair k))) [
          | inl ok ↦ let e = rw ok at q in (k, p, ok, ground arith)
          | inr bad ↦ let e = rw bad at q in cc
        ]

-- The audit behind an outcome, and the result that it is the audit of.
pub record Exact (r : Runtime) (response : String) (context : ScheduledContext)
    (policy : PolicyResult) (finalized : Option FinalizerResult) (audits : AuditFiles)
    (a : AuditRecord) : Type 0 where
  pub finalizer : FinalizerResult
  pub given : finalized ≡ some finalizer
  pub result : FinalizerResult
  pub passes : result.status ≡ pass → finalizer.status ≡ pass
  pub records : List AuditRecord
  pub read : read_audits r audits ≡ returns records
  pub present : In a records
  pub exact : is_exact_audit r response context result policy a ≡ true
  pub verdict : (llm_outcome r response context policy finalized audits).verdict ≡ result.status
  pub reasons : (llm_outcome r response context policy finalized audits).reasons ≡ result.reasons

with_reason-passes :
    (result : FinalizerResult) (reason : Reason)
    → (with_reason result reason).status ≡ pass
    → result.status ≡ pass
unfolding with_reason
with_reason-passes result reason h = elim (Bool-cases (includes reason result.reasons)) [
  | inl e ↦ rw e at h
  | inr e ↦ let failing = rw e at h in cc
]

exact-found :
    (r : Runtime) (response : String) (context : ScheduledContext) (result : FinalizerResult)
    (policy : PolicyResult) (audits : AuditFiles) (a : AuditRecord)
    → exact_audit_record r response context result policy audits ≡ some a
    → (l : List AuditRecord) × (read_audits r audits ≡ returns l)
      × In a l
      × (is_exact_audit r response context result policy a ≡ true)
unfolding exact_audit_record
exact-found r response context result policy audits a h =
    elim (Bool-cases (includes audit_persistence_failed result.reasons)) [
      | inl lost ↦ let e = rw lost at h in cc
      | inr kept ↦ go (read_audits r audits) refl (rw kept at h)
    ]
  where
    go :
        (o : Outcome _ (List AuditRecord))
        → read_audits r audits ≡ o
        → find_in (is_exact_audit r response context result policy) o ≡ some a
        → (l : List AuditRecord) × (read_audits r audits ≡ returns l)
          × In a l
          × (is_exact_audit r response context result policy a ≡ true)
    go (throws e) p q = cc
    go (returns l) p q = let (i, e) = find-some _ l a q in (l, p, i, e)

-- An outcome with an audit is that of a result of which the audit is exact.
pub outcome-Exact :
    (r : Runtime) (response : String) (context : ScheduledContext) (policy : PolicyResult)
    (finalized : Option FinalizerResult) (audits : AuditFiles) (a : AuditRecord)
    → (llm_outcome r response context policy finalized audits).audit ≡ some a
    → Exact r response context policy finalized audits a
unfolding llm_outcome
outcome-Exact r response context policy none audits a h = cc
outcome-Exact r response context policy (some fin) audits a h =
    let routed =
      if no_agent_route_is_valid policy then with_reason fin llm_route_invalid else fin in
    let (l, read, i, e) = exact-found r response context routed policy audits a h in
    record {
      finalizer = fin;
      given = refl;
      result = routed;
      passes = elim (Bool-cases (no_agent_route_is_valid policy)) [
        | inl v ↦ rw v (with_reason-passes fin llm_route_invalid)
        | inr v ↦ rw v (λ q. q)
      ];
      records = l;
      read = read;
      present = i;
      exact = e;
      verdict = rw h refl;
      reasons = rw h refl;
    }
