-- ===== src/Workflow/Tests.antt =====
-- Phases of a goal and their gates at concrete inputs.
use ycm_harness.Common.{◌≡◌, refl, ◌↔◌, ◌+◌, true, none, some, [], ◌∷◌, arith, In, code_point_host}
use ycm_harness.Schema.Legacy.{
  Goal, GoalStatus, WorktreeStatus, State, Phase, explore, discuss, design, plan, execute,
  PhaseStatus, Artifact, ArtifactKind, Task, TaskStatus, SmokeRequirement, empty_state,
}
use ycm_harness.Enforcement.StrictMode.{Env}
use ycm_harness.Workflow.Transitions.{evaluate_phase_transition, next_phase_kind}
use ycm_harness.Workflow.Transitions.Order.{
  transition_iff, Allowed, rank, Run, Run-In, next_phase_kind_iff,
}
use ycm_harness.Workflow.NextAction.{compute_next_action}
use ycm_harness.Workflow.NextAction.Coherent.{Coherent, compute_next_action-Coherent}
use ycm_harness.Workflow.Gates.{evaluate_phase_exit_gate}
use ycm_harness.Workflow.Gates.Exit.{ExitMet, exit_gate_iff}

abbrev env : Env
env = record { strict_gates = none; allow_orchestrator = none; review_min_seconds = none }

abbrev design_phase : Phase
design_phase = record {
  id = "p1";
  goal_id = "g1";
  kind = design;
  title = "Design";
  summary = none;
  status = PhaseStatus.active;
  order = 0;
  created_at = "2024-01-01";
  updated_at = "2024-01-01";
}

abbrev paper : Artifact
paper = record {
  id = "a1";
  goal_id = "g1";
  phase_id = some "p1";
  kind = ArtifactKind.design;
  path = "design.md";
  summary = none;
  created_at = "2024-01-01";
  updated_at = "2024-01-01";
}

abbrev designed : State
designed = record (empty_state "2024-01-01") { artifacts = ("a1", paper) ∷ [] }

exit_gate_iff_example :
    ((evaluate_phase_exit_gate code_point_host env designed design_phase).allowed ≡ true)
    ↔ ExitMet design code_point_host env designed design_phase
exit_gate_iff_example = exit_gate_iff code_point_host env designed design_phase

abbrev task : Task
task = record {
  id = "t1";
  phase_id = "p1";
  title = "T";
  brief = none;
  status = TaskStatus.done;
  smoke = SmokeRequirement.required;
  code_changed = some true;
  smoke_evidence_ids = [];
  order = 0;
  created_at = "2024-01-01";
  updated_at = "2024-01-01";
}

transition_iff_example :
    ((evaluate_phase_transition (some plan) execute).allowed ≡ true) ↔ Allowed (some plan) execute
transition_iff_example = transition_iff (some plan) execute

forward : Run (some discuss) (discuss ∷ explore ∷ [])
unfolding evaluate_phase_transition
forward = Run.enter discuss (Run.enter explore Run.start refl) refl

Run-In_example : In explore (discuss ∷ explore ∷ [])
Run-In_example = Run-In forward explore (omega arith)

next_phase_kind_iff_example :
    (next_phase_kind (some plan) ≡ some execute) ↔ (rank execute ≡ rank plan + 1)
next_phase_kind_iff_example = next_phase_kind_iff plan execute

abbrev goal : Goal
goal = record {
  id = "g1";
  title = "G";
  description = none;
  status = GoalStatus.active;
  worktree_path = none;
  branch = none;
  base_sha = none;
  worktree_status = WorktreeStatus.active;
  created_at = "2024-01-01";
  updated_at = "2024-01-01";
}

abbrev working : State
working = record designed {
  active_goal_id = some "g1";
  goals = ("g1", goal) ∷ [];
  phases = ("p1", record design_phase { kind = execute }) ∷ [];
  tasks = ("t1", record task { status = TaskStatus.active }) ∷ [];
}

compute_next_action-Coherent_example :
    Coherent working (compute_next_action code_point_host working)
compute_next_action-Coherent_example = compute_next_action-Coherent code_point_host working
