-- ===== src/Review/Gate.antt =====
-- When the gate of a review session passes, blocks, or asks for another round.
use ycm_harness.Common.{
  ◌≤◌, ◌*◌, ◌≡◌, refl, leb, leb_iff, ◌≢◌, ◌↔◌, inl, inr, Bool, true, false, ◌&&◌, Option, some,
  List, [], ◌∷◌, arith, Host, values, length, is_empty, is_empty_iff, Bool-cases, Option-cases, All,
  eqb_iff, and-eq-true_iff, if◌then◌else◌,
}
use ycm_harness.Schema.Reviews.{
  Severity, high, medium, low, Finding, ReviewerVerdict, ReviewSession, scale_of,
}
use ycm_harness.Schema.Legacy.{State}
use ycm_harness.Enforcement.StrictMode.{Env, strict_gates_enabled}
use ycm_harness.Enforcement.Provenance.{combined_of}
use ycm_harness.Enforcement.Provenance.Sound.{Provenanced, provenance_iff}
use ycm_harness.Review.{
  reaches_min_score, Counts, count_unresolved, aggregate_review, GateStatus, blocked, passed,
  gate_violations, decide_by_score, decide_gate, zero_counts, bump,
}

-- No high finding is left open.
abbrev pub NoOpenHigh : ReviewSession → Type 0
NoOpenHigh session = All (λ f. f.severity ≡ high → f.resolved ≡ true) (values session.findings)

bump-high :
    (s : Severity) (resolved : Bool) (c : Counts)
    → ((if resolved then c else bump s c).of_high ≡ 0)
      ↔ ((c.of_high ≡ 0) × (s ≡ high → resolved ≡ true))
bump-high s true c = (λ h. (h, λ _. refl), λ h. h.0)
bump-high high false c = (λ h. absurd (omega arith), λ h. cc (h.1 refl))
bump-high medium false c = (λ h. (h, λ e. cc), λ h. h.0)
bump-high low false c = (λ h. (h, λ e. cc), λ h. h.0)

count_unresolved-high :
    (c : Counts) (fs : List Finding)
    → ((count_unresolved c fs).of_high ≡ 0)
      ↔ ((c.of_high ≡ 0) × All (λ f. f.severity ≡ high → f.resolved ≡ true) fs)
unfolding count_unresolved
count_unresolved-high c [] = (λ h. (h, tt), λ h. h.0)
count_unresolved-high c (f ∷ fs) =
    let now = bump-high f.severity f.resolved c in
    let later = count_unresolved-high (if f.resolved then c else bump f.severity c) fs in
    (
      λ h. let (a, b) = later.0 h in let (d, e) = now.0 a in (d, (e, b)),
      λ h. later.1 (now.1 (h.0, h.1.0), h.1.1),
    )

meets_score_lem :
    (session : ReviewSession) (v : ReviewerVerdict)
    → combined_of session ≡ some v
    → (aggregate_review session).meets_score ≡ leb (823 * scale_of v.score) (10 * v.score.units)
unfolding aggregate_review reaches_min_score
meets_score_lem session v given = ground arith

-- The score and the severity part of the aggregate for a given combined verdict.
pub aggregate_iff :
    (session : ReviewSession) (v : ReviewerVerdict)
    → combined_of session ≡ some v
    → (((aggregate_review session).meets_score && (aggregate_review session).meets_severity_gate)
        ≡ true)
      ↔ ((823 * scale_of v.score ≤ 10 * v.score.units) × NoOpenHigh session)
unfolding aggregate_review
aggregate_iff session v given = rw (meets_score_lem session v given) (
  λ h.
      let (score, none_open) = (and-eq-true_iff _ _).0 h in
      (
        (leb_iff _ _).0 score,
        ((count_unresolved-high zero_counts _).0 ((eqb_iff _ _).0 none_open)).1,
      ),
  λ (score, none_open). (and-eq-true_iff _ _).1 (
    (leb_iff _ _).1 score,
    (eqb_iff _ _).1 ((count_unresolved-high zero_counts _).1 (refl, none_open)),
  ),
)

by_score-passed :
    (session : ReviewSession)
    → ((decide_by_score session).status ≡ passed) ↔ (
        ((aggregate_review session).meets_score && (aggregate_review session).meets_severity_gate)
        ≡ true)
unfolding decide_by_score
by_score-passed session = (λ h. ground arith, λ h. ground arith)

-- What the gate of a session asks for.
pub record MayPass (host : Host) (env : Env) (session : ReviewSession) (state : State)
    (v : ReviewerVerdict) : Type 0 where
  pub given : combined_of session ≡ some v
  pub provenance : strict_gates_enabled env ≡ true → Provenanced host env session state v
  pub score : 823 * scale_of v.score ≤ 10 * v.score.units
  pub none_open : NoOpenHigh session

violations_iff :
    (host : Host) (env : Env) (session : ReviewSession) (state : State) (v : ReviewerVerdict)
    → combined_of session ≡ some v
    → (is_empty (gate_violations host env session (some state)) ≡ true)
      ↔ (strict_gates_enabled env ≡ true → Provenanced host env session state v)
violations_iff host env session state v given = elim (Bool-cases (strict_gates_enabled env)) [
  | inl strict ↦
      let found = provenance_iff host env session state v strict given in
      rw strict (λ h _. found.0 ((is_empty_iff _).0 h), λ p. (is_empty_iff _).1 (found.1 (p refl)))
  | inr relaxed ↦ rw relaxed (λ h e. cc, λ p. refl)
]

-- With a state, the gate passes exactly when the combined reviewer gave a verdict with, under the
-- strict gates, sound provenance, a score of at least 82.3, and no high finding left open.
pub decide_gate-passed :
    (host : Host) (env : Env) (session : ReviewSession) (state : State)
    → ((decide_gate host env session (some state)).status ≡ passed)
      ↔ ((v : ReviewerVerdict) × MayPass host env session state v)
unfolding decide_gate
decide_gate-passed host env session state = (
  λ h. elim (Option-cases (combined_of session)) [
    | inl absent ↦ absurd (not_pending (rw (absent, decide_gate) at h))
    | inr (v, given) ↦
        elim (Bool-cases (is_empty (gate_violations host env session (some state)))) [
          | inl sound ↦
              let ok =
                (aggregate_iff session v given).0
                  ((by_score-passed session).0 (rw (given, sound, decide_gate) at h)) in
              (
                v,
                record {
                  given = given;
                  provenance = (violations_iff host env session state v given).0 sound;
                  score = ok.0;
                  none_open = ok.1;
                },
              )
          | inr unsound ↦ absurd (not_fix (rw (given, unsound, decide_gate) at h))
        ]
  ],
  λ (v, p).
      let sound = (violations_iff host env session state v p.given).1 p.provenance in
      rw (p.given, sound, decide_gate)
        ((by_score-passed session).1 ((aggregate_iff session v p.given).1 (p.score, p.none_open))),
)
  where
    not_pending : GateStatus.pending ≡ passed → ⊥
    not_pending e = cc

    not_fix : GateStatus.needs_fix_loop ≡ passed → ⊥
    not_fix e = cc

by_score-blocked :
    (session : ReviewSession)
    → (decide_by_score session).status ≢ passed
    → ((decide_by_score session).status ≡ blocked) ↔ (3 ≤ length session.rounds)
unfolding decide_by_score
by_score-blocked session fails = (λ h. ground arith, λ h. ground arith)

-- A session with a verdict whose gate does not pass is blocked, for human review, exactly when
-- its provenance is not in doubt and three rounds of fixes are on record.
pub decide_gate-blocked :
    (host : Host) (env : Env) (session : ReviewSession) (state : Option State) (v : ReviewerVerdict)
    → combined_of session ≡ some v
    → (decide_gate host env session state).status ≢ passed
    → ((decide_gate host env session state).status ≡ blocked)
      ↔ ((gate_violations host env session state ≡ []) × (3 ≤ length session.rounds))
unfolding decide_gate
decide_gate-blocked host env session state v given fails =
    elim (Bool-cases (is_empty (gate_violations host env session state))) [
      | inl sound ↦
          let by_score = by_score-blocked session (rw (given, sound, decide_gate) at fails) in
          rw (given, sound, decide_gate)
            (λ h. ((is_empty_iff _).0 sound, by_score.0 h), λ h. by_score.1 h.1)
      | inr unsound ↦ rw (given, unsound, decide_gate) (λ h. cc, λ h. cc ((is_empty_iff _).1 h.0))
    ]
