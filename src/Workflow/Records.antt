-- ===== src/Workflow/Records.antt =====
-- The queries of src/workflow/phase-gates.ts on the stored records, and `commitRecordsForGoal` of
-- src/state/commits.ts.
pub mod Found
use ycm_harness.Common.{
  ℕ, String, Bool, true, false, not, ◌&&◌, ◌||◌, Option, none, some, List, [], ◌∷◌, ◌++◌, ◌==◌,
  Host, Dict, ltb, eqb, if◌then◌else◌, opt_eq, lower_is, lookup, values, any, filter, filter_map,
  length, head?, sort, push_if, is_empty, test,
}
use ycm_harness.Schema.Legacy.{
  State, Phase, PhaseKind, explore, discuss, design, plan, execute, validate, finish, Task,
  TaskStatus, done, cancelled, SmokeRequirement, required, Checkpoint, CheckpointKind, decision,
  SmokeEvidence, RitualRecord, RitualKind, RitualStatus, complete, Metadata, flag, text, other,
  grill_me, writing_plans, ralplan, ultrawork, ralph, review_gate, project_wiki_update,
  explore_codebase, explore_knowledge_base, Artifact, ArtifactKind, user_story, prd,
  implementation_plan, test_plan, progress, explore_report, explore_synthesis, review_output,
  CommitRecord,
}
use ycm_harness.Schema.Legacy
use ycm_harness.Schema.Reviews.{ReviewSession, ReviewSessionStatus, TargetKind}
use ycm_harness.Enforcement.StrictMode.{Env, strict_gates_enabled}
use ycm_harness.Enforcement.Smoke.{is_pass, smoke_has_execution_proof}
use ycm_harness.Review.{decide_gate, GateStatus}

unfoldable pub RitualKind-discrete : Discrete RitualKind
RitualKind-discrete = hlevel

unfoldable pub ArtifactKind-discrete : Discrete ArtifactKind
ArtifactKind-discrete = hlevel

unfoldable pub CheckpointKind-discrete : Discrete CheckpointKind
CheckpointKind-discrete = hlevel

abbrev is_complete : RitualStatus → Bool
is_complete complete = true
is_complete RitualStatus.blocked = false

pub rituals_for_phase : State → String → List RitualRecord
rituals_for_phase state phase_id = filter (λ r. r.phase_id == phase_id) (values state.rituals)

pub complete_rituals_for_phase : State → String → List RitualRecord
unfolding rituals_for_phase
complete_rituals_for_phase state phase_id =
    filter (λ r. is_complete r.status) (rituals_for_phase state phase_id)

pub has_ritual : State → String → RitualKind → Bool
unfolding complete_rituals_for_phase RitualKind-discrete
has_ritual state phase_id kind =
    any (λ r. test (RitualKind-discrete r.kind kind)) (complete_rituals_for_phase state phase_id)

pub phase_checkpoints : State → String → List Checkpoint
phase_checkpoints state phase_id =
    filter (λ c. opt_eq c.phase_id phase_id) (values state.checkpoints)

pub has_checkpoint : State → String → CheckpointKind → Bool
unfolding phase_checkpoints CheckpointKind-discrete
has_checkpoint state phase_id kind =
    any (λ c. test (CheckpointKind-discrete c.kind kind)) (phase_checkpoints state phase_id)

unfoldable pub phase_tasks : State → String → List Task
phase_tasks state phase_id = filter (λ t. t.phase_id == phase_id) (values state.tasks)

pub phase_smoke : State → String → List SmokeEvidence
phase_smoke state phase_id = filter (λ s. opt_eq s.phase_id phase_id) (values state.smoke)

pub goal_artifacts_of_kind : State → String → ArtifactKind → List Artifact
unfolding ArtifactKind-discrete
goal_artifacts_of_kind state goal_id kind =
    filter (λ a. a.goal_id == goal_id && test (ArtifactKind-discrete a.kind kind))
      (values state.artifacts)

-- `metaBool(value)`; a missing value is `undefined`.
pub meta_bool : Option Metadata → Option Bool
unfolding lower_is
meta_bool none = none
meta_bool (some (flag b)) = some b
meta_bool (some (text s)) =
    if lower_is s "true" then some true else if lower_is s "false" then some false else none
meta_bool (some other) = none

abbrev is_writing_plans : RitualKind → Bool
is_writing_plans writing_plans = true
is_writing_plans _ = false

-- The newest complete writing-plans ritual of the phase.
pub writing_plan_ritual : Host → State → String → Option RitualRecord
unfolding complete_rituals_for_phase sort
writing_plan_ritual host state phase_id = head? (
    sort (λ a b. host.locale_le b.created_at a.created_at)
      (filter (λ r. is_writing_plans r.kind) (complete_rituals_for_phase state phase_id)))

abbrev targets_phase : TargetKind → Bool
targets_phase TargetKind.phase = true
targets_phase TargetKind.task = false

abbrev is_passed : ReviewSessionStatus → Bool
is_passed ReviewSessionStatus.passed = true
is_passed _ = false

abbrev gate_passed : GateStatus → Bool
gate_passed GateStatus.passed = true
gate_passed _ = false

pub passed_review_for_phase : Host → Env → State → String → Bool
passed_review_for_phase host env state phase_id =
    any
      (λ session.
        targets_phase session.target_kind
        && (session.target_id == phase_id
            && (is_passed session.status
                && gate_passed (decide_gate host env session (some state)).status)))
      (values state.reviews)

-- `commitRecordsForGoal(state, goalId)` of src/state/commits.ts.
pub commit_records_for_goal : State → String → List CommitRecord
commit_records_for_goal state goal_id = filter (λ c. c.goal_id == goal_id) (values state.commits)
