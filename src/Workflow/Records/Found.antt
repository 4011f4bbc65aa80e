-- ===== src/Workflow/Records/Found.antt =====
-- What the queries on the stored records find.
use ycm_harness.Common.{
  ◌≡◌, refl, ◌↔◌, String, Bool, true, false, Option, none, some, arith, eq_iff, any, ◌==◌, opt_eq,
  Host, ltb, values, length, test_iff, In, any_iff, some_In_iff, In-filter_iff, and-eq-true_iff,
}
use ycm_harness.Schema.Legacy.{
  State, Phase, Task, SmokeEvidence, CommitRecord, RitualRecord, RitualKind, RitualStatus, complete,
  Checkpoint, CheckpointKind, Artifact, ArtifactKind,
}
use ycm_harness.Schema.Reviews.{ReviewSession, ReviewSessionStatus, TargetKind, ReviewerVerdict}
use ycm_harness.Enforcement.StrictMode.{Env}
use ycm_harness.Review.{GateStatus}
use ycm_harness.Review.Gate.{MayPass, decide_gate-passed}
use ycm_harness.Workflow.Records.{
  phase_smoke, commit_records_for_goal, is_complete, has_ritual, has_checkpoint,
  goal_artifacts_of_kind, targets_phase, is_passed, gate_passed, passed_review_for_phase,
}

-- A complete ritual of the kind stands on record for the phase.
abbrev pub RitualDone : State → String → RitualKind → Type 0
RitualDone state phase_id kind =
    (r : RitualRecord) × In r (values state.rituals)
    × (r.phase_id ≡ phase_id)
    × (r.status ≡ complete)
    × (r.kind ≡ kind)

is_complete_iff : (s : RitualStatus) → (is_complete s ≡ true) ↔ (s ≡ complete)
is_complete_iff complete = (λ _. refl, λ _. refl)
is_complete_iff RitualStatus.blocked = (λ h. cc, λ h. cc)

pub has_ritual_iff :
    (state : State) (phase_id : String) (kind : RitualKind)
    → (has_ritual state phase_id kind ≡ true) ↔ RitualDone state phase_id kind
unfolding has_ritual
has_ritual_iff state phase_id kind = (
  λ h.
      let (r, i, k) = (any_iff _ _).0 h in
      let (j, c) = (In-filter_iff _ _).0 i in
      let (l, p) = (In-filter_iff _ _).0 j in
      (r, l, (eq_iff _ _).0 p, (is_complete_iff _).0 c, (test_iff _).0 k),
  λ (r, i, p, c, k). (any_iff _ _).1 (
    r,
    (In-filter_iff _ _).1 ((In-filter_iff _ _).1 (i, (eq_iff _ _).1 p), (is_complete_iff _).1 c),
    (test_iff _).1 k,
  ),
)

abbrev pub CheckpointMade : State → String → CheckpointKind → Type 0
CheckpointMade state phase_id kind =
    (c : Checkpoint) × In c (values state.checkpoints)
    × (c.phase_id ≡ some phase_id)
    × (c.kind ≡ kind)

pub opt_eq_iff : (o : Option String) (s : String) → (opt_eq o s ≡ true) ↔ (o ≡ some s)
opt_eq_iff none s = (λ h. cc, λ h. cc)
opt_eq_iff (some t) s = (λ h. ground (arith, eq_iff t s), λ h. ground (arith, eq_iff t s))

pub has_checkpoint_iff :
    (state : State) (phase_id : String) (kind : CheckpointKind)
    → (has_checkpoint state phase_id kind ≡ true) ↔ CheckpointMade state phase_id kind
unfolding has_checkpoint
has_checkpoint_iff state phase_id kind = (
  λ h.
      let (c, i, k) = (any_iff _ _).0 h in
      let (j, p) = (In-filter_iff _ _).0 i in (c, j, (opt_eq_iff _ _).0 p, (test_iff _).0 k),
  λ (c, i, p, k).
      (any_iff _ _).1 (c, (In-filter_iff _ _).1 (i, (opt_eq_iff _ _).1 p), (test_iff _).1 k),
)

-- An artifact of the kind is registered for the goal.
abbrev pub Filed : State → String → ArtifactKind → Type 0
Filed state goal_id kind =
    (a : Artifact) × In a (values state.artifacts) × (a.goal_id ≡ goal_id) × (a.kind ≡ kind)

pub Filed-iff :
    (state : State) (goal_id : String) (kind : ArtifactKind)
    → (ltb (length (goal_artifacts_of_kind state goal_id kind)) 1 ≡ false)
      ↔ Filed state goal_id kind
unfolding goal_artifacts_of_kind
Filed-iff state goal_id kind = (
  λ h.
      let (a, i) = (some_In_iff _).0 h in
      let (j, q) = (In-filter_iff _ _).0 i in
      let (g, k) = (and-eq-true_iff _ _).0 q in (a, j, (eq_iff _ _).0 g, (test_iff _).0 k),
  λ (a, i, g, k).
      (some_In_iff _).1 (
        a,
        (In-filter_iff _ _).1 (i, (and-eq-true_iff _ _).1 ((eq_iff _ _).1 g, (test_iff _).1 k)),
      ),
)

-- A review of the phase was closed as passed, and its gate still passes.
abbrev pub ReviewPassed : Host → Env → State → String → Type 0
ReviewPassed host env state phase_id =
    (session : ReviewSession) × In session (values state.reviews)
    × (session.target_kind ≡ TargetKind.phase)
    × (session.target_id ≡ phase_id)
    × (session.status ≡ ReviewSessionStatus.passed)
    × (v : ReviewerVerdict) × MayPass host env session state v

targets_phase_iff : (k : TargetKind) → (targets_phase k ≡ true) ↔ (k ≡ TargetKind.phase)
targets_phase_iff TargetKind.phase = (λ _. refl, λ _. refl)
targets_phase_iff TargetKind.task = (λ h. cc, λ h. cc)

is_passed_iff : (s : ReviewSessionStatus) → (is_passed s ≡ true) ↔ (s ≡ ReviewSessionStatus.passed)
is_passed_iff ReviewSessionStatus.passed = (λ _. refl, λ _. refl)
is_passed_iff _ = (λ h. cc, λ h. cc)

gate_passed_iff : (s : GateStatus) → (gate_passed s ≡ true) ↔ (s ≡ GateStatus.passed)
gate_passed_iff GateStatus.passed = (λ _. refl, λ _. refl)
gate_passed_iff _ = (λ h. cc, λ h. cc)

pub passed_review_iff :
    (host : Host) (env : Env) (state : State) (phase_id : String)
    → (passed_review_for_phase host env state phase_id ≡ true)
      ↔ ReviewPassed host env state phase_id
unfolding passed_review_for_phase
passed_review_iff host env state phase_id = (
  λ h.
      let (s, i, q) = (any_iff _ _).0 h in
      let (k, q1) = (and-eq-true_iff _ _).0 q in
      let (t, q2) = (and-eq-true_iff _ _).0 q1 in
      let (p, g) = (and-eq-true_iff _ _).0 q2 in
      let (v, m) = (decide_gate-passed host env s state).0 ((gate_passed_iff _).0 g) in
      (s, i, (targets_phase_iff _).0 k, (eq_iff _ _).0 t, (is_passed_iff _).0 p, v, m),
  λ (s, i, k, t, p, v, m). (any_iff _ _).1 (
    s,
    i,
    (and-eq-true_iff _ _).1 (
      (targets_phase_iff _).1 k,
      (and-eq-true_iff _ _).1 (
        (eq_iff _ _).1 t,
        (and-eq-true_iff _ _).1 (
          (is_passed_iff _).1 p,
          (gate_passed_iff _).1 ((decide_gate-passed host env s state).1 (v, m)),
        ),
      ),
    ),
  ),
)

pub commit_iff :
    (state : State) (phase : Phase) (task : Task)
    → (any (λ c. c.task_id == task.id) (commit_records_for_goal state phase.goal_id) ≡ true) ↔ (
        (c : CommitRecord) × In c (values state.commits)
        × (c.goal_id ≡ phase.goal_id)
        × (c.task_id ≡ task.id))
unfolding commit_records_for_goal
commit_iff state phase task = (
  λ h.
      let (c, i, t) = (any_iff _ _).0 h in
      let (j, g) = (In-filter_iff _ _).0 i in (c, j, (eq_iff _ _).0 g, (eq_iff _ _).0 t),
  λ (c, i, g, t).
      (any_iff _ _).1 (c, (In-filter_iff _ _).1 (i, (eq_iff _ _).1 g), (eq_iff _ _).1 t),
)

pub phase_smoke_iff :
    (state : State) (phase : Phase) (p : SmokeEvidence → Bool)
    → (any p (phase_smoke state phase.id) ≡ true) ↔ (
        (s : SmokeEvidence) × In s (values state.smoke)
        × (s.phase_id ≡ some phase.id)
        × (p s ≡ true))
unfolding phase_smoke
phase_smoke_iff state phase p = (
  λ h.
      let (s, i, q) = (any_iff _ _).0 h in
      let (j, e) = (In-filter_iff _ _).0 i in (s, j, (opt_eq_iff _ _).0 e, q),
  λ (s, i, e, q). (any_iff _ _).1 (s, (In-filter_iff _ _).1 (i, (opt_eq_iff _ _).1 e), q),
)
