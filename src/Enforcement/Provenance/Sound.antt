-- ===== src/Enforcement/Provenance/Sound.antt =====
-- When `checkSessionProvenance` finds nothing to object to.
use ycm_harness.Common.{
  ℕ, ◌+◌, ◌*◌, ◌≤◌, ◌<◌, ◌≡◌, refl, ◌≢◌, ◌↔◌, inl, inr, String, Bool, true, false, not, ◌&&◌,
  Option, none, some, List, [], ◌∷◌, arith, ◌==◌, eq_iff, Host, truthy, lookup, append-eq-nil,
  push_if-nil, not-false, Bool-cases, Option-cases,
}
use ycm_harness.Schema.Reviews.{
  ReviewerVerdict, ReviewSession, ReviewerSource, orchestrator, subagent,
}
use ycm_harness.Schema.Legacy.{State, Artifact, review_output}
use ycm_harness.Enforcement.StrictMode.{
  Env, strict_gates_enabled, allow_orchestrator_review, review_min_deliberation_seconds,
}
use ycm_harness.Enforcement.Provenance.{
  artifact_violations, orchestrator_given, verdict_violations, deliberation_violations, hasty,
  combined_of, check_session_provenance,
}

-- The evidence of a verdict is registered as a review output.
abbrev pub Registered : State → Option String → Type 0
Registered state artifact_id =
    (id : String) × (artifact_id ≡ some id)
    × (id ≢ "")
    × (art : Artifact) × (lookup id state.artifacts ≡ some art)
    × (art.kind ≡ review_output)

artifact-Registered :
    (state : State) (id : Option String) → artifact_violations state id ≡ [] → Registered state id
unfolding artifact_violations
artifact-Registered state none h = cc
artifact-Registered state (some id) h = elim (Bool-cases (id == "")) [
  | inl e ↦ absurd (no_item (rw (e, artifact_violations) at h))
  | inr e ↦ elim (Option-cases (lookup id state.artifacts)) [
    | inl absent ↦ absurd (no_item (rw (e, absent, artifact_violations) at h))
    | inr (art, found) ↦ (id, refl, ground (arith, eq_iff id ""), art, found, ground arith)
  ]
]
  where
    no_item : {A : Type 0} {x : A} {xs : List A} → x ∷ xs ≡ [] → ⊥
    no_item q = cc

Registered-artifact :
    (state : State) (id : Option String) → Registered state id → artifact_violations state id ≡ []
unfolding artifact_violations
Registered-artifact state id (i, at, ne, art, found, kind) = ground (arith, eq_iff i "")

-- The time that the review took, as far as both ends are dates and a minimum is set.
abbrev pub Deliberate : Host → Env → ReviewSession → ReviewerVerdict → Type 0
Deliberate host env session v =
    (first_at opened_at : ℕ)
    → 0 < review_min_deliberation_seconds env
    → host.date_parse v.recorded_at ≡ some first_at
    → host.date_parse session.opened_at ≡ some opened_at
    → opened_at + 1000 * review_min_deliberation_seconds env ≤ first_at

deliberation_iff :
    (host : Host) (env : Env) (session : ReviewSession) (v : ReviewerVerdict)
    → (deliberation_violations host env session v ≡ []) ↔ Deliberate host env session v
unfolding deliberation_violations hasty
deliberation_iff host env session v = (
  λ h a b pos p q. ground arith,
  λ d. elim (Option-cases (host.date_parse v.recorded_at)) [
    | inl p ↦ ground arith
    | inr (a, p) ↦ elim (Option-cases (host.date_parse session.opened_at)) [
      | inl q ↦ ground arith
      | inr (b, q) ↦
          ground (arith, λ (pos : 0 < review_min_deliberation_seconds env). d a b pos p q)
    ]
  ],
)

-- What a verdict must carry under the strict gates.
pub record Provenanced (host : Host) (env : Env) (session : ReviewSession) (state : State)
    (v : ReviewerVerdict) : Type 0 where
  pub filed : truthy v.evidence_file ≡ true
  pub named : truthy v.subagent_kind ≡ true
  pub independent : v.reviewer_source ≡ some orchestrator → allow_orchestrator_review env ≡ true
  pub registered : Registered state v.evidence_artifact_id
  pub deliberate : Deliberate host env session v

independent_iff :
    (source : Option ReviewerSource) (allow : Bool)
    → ((orchestrator_given source && not allow) ≡ false)
      ↔ (source ≡ some orchestrator → allow ≡ true)
independent_iff none allow = (λ _ e. cc, λ _. refl)
independent_iff (some orchestrator) true = (λ _ _. refl, λ _. refl)
independent_iff (some orchestrator) false = (λ e _. cc, λ f. cc (f refl))
independent_iff (some subagent) allow = (λ _ e. cc, λ _. refl)

verdict_iff :
    (env : Env) (state : State) (v : ReviewerVerdict)
    → (verdict_violations env state v ≡ []) ↔ (
        (truthy v.evidence_file ≡ true)
        × (truthy v.subagent_kind ≡ true)
        × (v.reviewer_source ≡ some orchestrator → allow_orchestrator_review env ≡ true)
        × Registered state v.evidence_artifact_id)
unfolding verdict_violations
verdict_iff env state v = (
  λ h. elim (Bool-cases (truthy v.evidence_file)) [
    | inl filed ↦
        let (named, rest) = (append-eq-nil _ _).0 (rw (filed, verdict_violations) at h) in
        let (independent, registered) = (append-eq-nil _ _).0 rest in
        (
          filed,
          not-false _ ((push_if-nil _ _).0 named),
          (independent_iff _ _).0 ((push_if-nil _ _).0 independent),
          artifact-Registered state _ registered,
        )
    | inr e ↦ cc
  ],
  λ (filed, named, independent, registered).
      rw (filed, verdict_violations)
        (ground (
          arith,
          Registered-artifact state v.evidence_artifact_id registered,
          (independent_iff _ _).1 independent,
        )),
)

-- Under the strict gates, the check finds no violation in a session with a combined verdict
-- exactly when the verdict has an evidence file, names a subagent, is not the orchestrator's
-- unless that is allowed, has its evidence registered as a review output, and was not given
-- before the minimal time.
pub provenance_iff :
    (host : Host) (env : Env) (session : ReviewSession) (state : State) (v : ReviewerVerdict)
    → strict_gates_enabled env ≡ true
    → combined_of session ≡ some v
    → (check_session_provenance host env session state ≡ []) ↔ Provenanced host env session state v
unfolding check_session_provenance
provenance_iff host env session state v strict given =
    rw (strict, given)
      (
        λ h.
            let (a, b) = (append-eq-nil _ _).0 h in
            let (filed, named, independent, registered) = (verdict_iff env state v).0 a in
            record {
              filed = filed;
              named = named;
              independent = independent;
              registered = registered;
              deliberate = (deliberation_iff host env session v).0 b;
            },
        λ p. (append-eq-nil _ _).1 (
          (verdict_iff env state v).1 (p.filed, p.named, p.independent, p.registered),
          (deliberation_iff host env session v).1 p.deliberate,
        ),
      )
