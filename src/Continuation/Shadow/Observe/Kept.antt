-- ===== src/Continuation/Shadow/Observe/Kept.antt =====
-- What a passing verdict of src/continuation/shadow.ts says of the observation behind it.
use ycm_harness.Common.{
  ◌≡◌, refl, ap, ◌∙◌, sym, inl, inr, String, Bool, true, false, not, ◌||◌, Option, none, some,
  arith, Bool-cases, if◌then◌else◌, Outcome, returns, throws, ◌>>=◌,
}
use ycm_harness.Continuation.Policy.Evaluate.{pass, fail}
use ycm_harness.Continuation.Policy.Replay.{evaluated}
use ycm_harness.Continuation.Digests.{Reason, ShadowRecord, Routing, llm, no_agent_route, Runtime}
use ycm_harness.Continuation.Shadow.{ShadowFiles, persist_shadow, llm_outcome}
use ycm_harness.Continuation.Shadow.Records.{
  ShadowFault, ScheduledContext, CanonicalVerdict, verdict_of_record, ShadowOutcome, FailurePair,
  build_shadow,
}
use ycm_harness.Continuation.Shadow.Observe.{as_failed, unpersisted, observation_verdict}
use ycm_harness.Continuation.Shadow.Observe.Observed.{
  observation_failure_pair, Observation, Deps, Stores, routed_outcome, outcome_of, kept_record,
  record_outcome, recorded, is_scheduled, observe,
}

kept-verdict :
    (failed : Bool) (o : Outcome ShadowFault (CanonicalVerdict Reason))
    (v : CanonicalVerdict Reason)
    → (o >>= λ u. returns (some (if failed then as_failed u else u))) ≡ returns (some v)
    → v.verdict ≡ pass
    → (failed ≡ false) × (o ≡ returns v)
unfolding ◌>>=◌
kept-verdict failed (throws e) v h p = cc
kept-verdict true (returns u) v h p = let failing : fail ≡ v.verdict = ground arith in cc
kept-verdict false (returns u) v h p = (refl, ground arith)

-- A passing verdict is that of a record that was kept.
pub verdict-kept :
    (r : Runtime) (response : String) (context : ScheduledContext) (o : Observation)
    (v : CanonicalVerdict Reason)
    → observation_verdict r response context o ≡ returns (some v)
    → v.verdict ≡ pass
    → (s : ShadowRecord) × (o.stored ≡ some s)
      × (o.persistence_failed ≡ false)
      × (verdict_of_record s ≡ returns v)
unfolding observation_verdict unpersisted
verdict-kept r response context o v h p = elim (Bool-cases o.applicable) [
  | inr away ↦ absurd (none_given (rw (away, observation_verdict) at h))
  | inl there' ↦ by_record o.stored refl (rw (there', observation_verdict) at h)
]
  where
    none_given :
        ◌≡◌ {A = Outcome ShadowFault (Option (CanonicalVerdict Reason))}
          (returns none)
          (returns (some v))
        → ⊥
    none_given e = cc

    by_record :
        (k : Option ShadowRecord)
        → o.stored ≡ k
        → (elim k [
          | none ↦ returns (some (unpersisted r response context o))
          | some s ↦ verdict_of_record s >>= λ u.
              returns (some (if o.persistence_failed then as_failed u else u))
        ])
          ≡ returns (some v)
        → (s : ShadowRecord) × (o.stored ≡ some s)
          × (o.persistence_failed ≡ false)
          × (verdict_of_record s ≡ returns v)
    by_record none e q = let failing : fail ≡ v.verdict = ground arith in cc
    by_record (some s) e q =
        let (ok, given) = kept-verdict o.persistence_failed (verdict_of_record s) v q p in
        (s, e, ok, given)

kept_record-kept :
    (outcome : ShadowOutcome) (pair : FailurePair) (candidate s : ShadowRecord)
    (o : Outcome ShadowFault ShadowRecord)
    → (kept_record outcome pair candidate o).stored ≡ some s
    → (kept_record outcome pair candidate o).persistence_failed ≡ false
    → o ≡ returns s
kept_record-kept outcome pair candidate s (returns t) e f = ground arith
kept_record-kept outcome pair candidate s (throws x) e f = cc

record_outcome-kept :
    (r : Runtime) (deps : Deps) (outcome : ShadowOutcome) (pair : FailurePair)
    (shadows : ShadowFiles) (s : ShadowRecord) (built : Outcome ShadowFault ShadowRecord)
    → (record_outcome r deps outcome pair shadows built).0.stored ≡ some s
    → (record_outcome r deps outcome pair shadows built).0.persistence_failed ≡ false
    → (candidate : ShadowRecord) × (built ≡ returns candidate)
      × ((persist_shadow r deps.disk candidate shadows).0 ≡ returns s)
      × ((record_outcome r deps outcome pair shadows built).1
          ≡ (persist_shadow r deps.disk candidate shadows).1)
record_outcome-kept r deps outcome pair shadows s (throws x) e f = cc
record_outcome-kept r deps outcome pair shadows s (returns candidate) e f = (
  candidate,
  refl,
  kept_record-kept outcome pair candidate s (persist_shadow r deps.disk candidate shadows).0 e f,
  refl,
)

-- The outcome, the candidate and the stores behind a record that was kept.
pub record Kept (r : Runtime) (deps : Deps) (response : String) (context : ScheduledContext)
    (stores stores' : Stores) (s : ShadowRecord) : Type 0 where
  pub pair : FailurePair
  pub candidate : ShadowRecord
  pub outcome : ShadowOutcome
  pub by_model :
      outcome
      ≡ llm_outcome r response context
          (evaluated (some context.execution_policy))
          (deps.finalize stores.audits).0
          (deps.finalize stores.audits).1
  pub built : build_shadow r deps.clean response context outcome pair deps.now ≡ returns candidate
  pub persisted : (persist_shadow r deps.disk candidate stores.shadows).0 ≡ returns s
  pub shadows : stores'.shadows ≡ (persist_shadow r deps.disk candidate stores.shadows).1
  pub audits : stores'.audits ≡ (deps.finalize stores.audits).1

recorded-Kept :
    (r : Runtime) (deps : Deps) (response : String) (context : ScheduledContext) (stores : Stores)
    (s : ShadowRecord) (pair : FailurePair) (route : Routing)
    → route ≡ llm
    → (ob : Observation × Stores)
    → recorded r deps response context pair stores.shadows (
        routed_outcome r deps response context
          (evaluated (some context.execution_policy))
          stores.audits
          route)
      ≡ ob
    → ob.0.stored ≡ some s
    → ob.0.persistence_failed ≡ false
    → Kept r deps response context stores ob.1 s
recorded-Kept r deps response context stores s pair no_agent_route by_llm ob same e f = cc
recorded-Kept r deps response context stores s pair llm by_llm ob same e f =
    let (finalized, audits') = deps.finalize stores.audits in
    let outcome =
      llm_outcome r response context (evaluated (some context.execution_policy)) finalized
        audits' in
    let built = build_shadow r deps.clean response context outcome pair deps.now in
    let (candidate, made, persisted, after) =
      record_outcome-kept r deps outcome pair stores.shadows s built (ap (λ z. z.0.stored) same ∙ e)
        (ap (λ z. z.0.persistence_failed) same ∙ f) in
    record {
      pair = pair;
      candidate = candidate;
      outcome = outcome;
      by_model = refl;
      built = made;
      persisted = persisted;
      shadows = ap (λ z. z.1.shadows) (sym same) ∙ after;
      audits = ap (λ z. z.1.audits) (sym same);
    }

pub observe-Kept :
    (r : Runtime) (deps : Deps) (response : String) (context : ScheduledContext) (stores : Stores)
    (s : ShadowRecord)
    → context.routing ≡ llm
    → (ob : Observation × Stores) → observe r deps response context stores ≡ ob
    → ob.0.stored ≡ some s
    → ob.0.persistence_failed ≡ false
    → Kept r deps response context stores ob.1 s
unfolding observe outcome_of
observe-Kept r deps response context stores s by_llm ob same e f =
    elim (Bool-cases (not context.enabled || not (is_scheduled context.trigger))) [
      | inl away ↦ absurd (empty (ap (λ z. z.0.stored) (rw (away, observe) at same) ∙ e))
      | inr there' ↦ elim (Bool-cases deps.lease) [
        | inr busy ↦ absurd (empty (ap (λ z. z.0.stored) (rw (there', busy, observe) at same) ∙ e))
        | inl free ↦
            recorded-Kept r deps response context stores s
              (observation_failure_pair r response context
                (evaluated (some context.execution_policy)))
              context.routing by_llm ob (rw (there', free, observe) at same) e f
      ]
    ]
  where
    empty : ◌≡◌ {A = Option ShadowRecord} none (some s) → ⊥
    empty q = cc
