-- ===== src/Workflow/NextAction.antt =====
-- src/workflow/next-action.ts: what a goal needs next. A message with its command is a constructor of
-- Advice that carries what the texts name.
pub mod Coherent
use ycm_harness.Common.{
  String, Bool, true, false, not, ◌&&◌, ◌||◌, Option, none, some, List, [], ◌∷◌, ◌==◌, leb,
  if◌then◌else◌, Host, lookup, values, any, find, filter, head?, sort, or_else, is_empty,
}
use ycm_harness.Schema.Legacy.{
  State, Goal, WorktreeStatus, Phase, PhaseKind, explore, discuss, design, plan, execute, validate,
  finish, PhaseStatus, Task, TaskStatus,
}
use ycm_harness.Schema.Reviews.{ReviewSession, ReviewSessionStatus}

pub data Advice : Type 0 where
  create_goal create_task : Advice
  inspect_review : String → ReviewSessionStatus → Advice
  goal_finished init_worktree start_explore resume_phases close_goal : String → Advice
  resolve_blocker continue_phase : PhaseKind → Advice
  continue_task activate_task activate_drafted : String → String → Advice
  smoke_phase : String → Advice

-- `NextActionContext`.
pub record NextActionContext : Type 0 where
  pub goal : Option Goal
  pub phase : Option Phase
  pub task : Option Task
  pub advice : Advice

-- `activeGoal(state)`.
unfoldable pub active_goal : State → Option Goal
active_goal state = elim state.active_goal_id [
  | none ↦ none
  | some id ↦ if id == "" then none else lookup id state.goals
]

abbrev pub phase_before : Phase → Phase → Bool
phase_before a b = leb a.order b.order

-- `phasesForGoal(state, goalId)`.
unfoldable pub phases_for_goal : State → String → List Phase
unfolding sort
phases_for_goal state goal_id =
    sort phase_before (filter (λ p. p.goal_id == goal_id) (values state.phases))

abbrev pub task_before : Task → Task → Bool
task_before a b = leb a.order b.order

-- `tasksForPhase(state, phaseId)`.
unfoldable pub tasks_for_phase : State → String → List Task
unfolding sort
tasks_for_phase state phase_id =
    sort task_before (filter (λ t. t.phase_id == phase_id) (values state.tasks))

abbrev phase_active : Phase → Bool
phase_active p = elim p.status [ PhaseStatus.active ↦ true | _ ↦ false ]

abbrev phase_pending : Phase → Bool
phase_pending p = elim p.status [ PhaseStatus.pending ↦ true | _ ↦ false ]

abbrev phase_blocked : Phase → Bool
phase_blocked p = elim p.status [ PhaseStatus.blocked ↦ true | _ ↦ false ]

abbrev task_active : Task → Bool
task_active t = elim t.status [ TaskStatus.active ↦ true | _ ↦ false ]

abbrev task_pending : Task → Bool
task_pending t = elim t.status [ TaskStatus.pending ↦ true | _ ↦ false ]

abbrev task_blocked : Task → Bool
task_blocked t = elim t.status [ TaskStatus.blocked ↦ true | _ ↦ false ]

-- `activePhase(state, goal)`.
unfoldable pub active_phase : State → Goal → Option Phase
active_phase state goal =
    or_else (find phase_active (phases_for_goal state goal.id))
      (find phase_pending (phases_for_goal state goal.id))

-- `activeTask(state, phase)`.
unfoldable pub active_task : State → Phase → Option Task
active_task state phase =
    or_else (find task_active (tasks_for_phase state phase.id))
      (find task_pending (tasks_for_phase state phase.id))

abbrev review_open : ReviewSessionStatus → Bool
review_open ReviewSessionStatus.opened = true
review_open ReviewSessionStatus.fix_loop = true
review_open _ = false

unfoldable pub open_review : State → Goal → Option ReviewSession
open_review state goal =
    find (λ r. r.goal_id == goal.id && review_open r.status) (values state.reviews)

abbrev is_finish : PhaseKind → Bool
is_finish finish = true
is_finish _ = false

abbrev is_complete : PhaseStatus → Bool
is_complete PhaseStatus.complete = true
is_complete _ = false

abbrev is_active : WorktreeStatus → Bool
is_active WorktreeStatus.active = true
is_active _ = false

-- The advice for a goal with no active or pending phase.
without_phase : Goal → List Phase → Advice
without_phase goal phases =
    if any (λ p. is_finish p.kind && is_complete p.status) phases
    then goal_finished goal.title
    else if not (is_active goal.worktree_status)
    then init_worktree goal.title
    else if is_empty phases
    then start_explore goal.title
    else resume_phases goal.title

abbrev pub in_other_phase : State → Goal → Phase → Task → Bool
in_other_phase state goal phase t = elim (lookup t.phase_id state.phases) [
  | none ↦ false
  | some p ↦ p.goal_id == goal.id && not (p.id == phase.id)
]

abbrev pub drafted_before : Host → Task → Task → Bool
drafted_before host a b = host.locale_le a.created_at b.created_at

-- The first task that waits in another phase of the goal.
unfoldable pub drafted_task : Host → State → Goal → Phase → Option Task
unfolding sort
drafted_task host state goal phase = head? (
    sort (drafted_before host) (
      filter (in_other_phase state goal phase)
        (filter (λ t. task_pending t || task_blocked t) (values state.tasks))))

-- The rest of the advice, for a phase that is not blocked, by its kind.
with_kind : PhaseKind → Goal → Phase → Option Task → NextActionContext
with_kind validate goal phase task = record {
  goal = some goal;
  phase = some phase;
  task = task;
  advice = smoke_phase phase.id;
}
with_kind finish goal phase task = record {
  goal = some goal;
  phase = some phase;
  task = none;
  advice = close_goal goal.title;
}
with_kind kind goal phase task = record {
  goal = some goal;
  phase = some phase;
  task = task;
  advice = continue_phase kind;
}

abbrev with_phase : Goal → Phase → Option Task → NextActionContext
with_phase goal phase task = with_kind phase.kind goal phase task

with_task : Goal → Phase → Task → NextActionContext
unfolding with_kind
with_task goal phase t =
    if task_active t
    then record {
      goal = some goal;
      phase = some phase;
      task = some t;
      advice = continue_task t.title t.id;
    }
    else if task_pending t
    then record {
      goal = some goal;
      phase = some phase;
      task = some t;
      advice = activate_task t.title t.id;
    }
    else with_phase goal phase (some t)

without_task : Goal → Phase → Option Task → NextActionContext
without_task goal phase none = record {
  goal = some goal;
  phase = some phase;
  task = none;
  advice = create_task;
}
without_task goal phase (some t) = record {
  goal = some goal;
  phase = some phase;
  task = some t;
  advice = activate_drafted t.title t.id;
}

abbrev executes : PhaseKind → Bool
executes execute = true
executes _ = false

for_phase : Host → State → Goal → Phase → Option Task → NextActionContext
unfolding with_kind with_task without_task
for_phase host state goal phase task =
    if phase_blocked phase
    then record {
      goal = some goal;
      phase = some phase;
      task = task;
      advice = resolve_blocker phase.kind;
    }
    else if executes phase.kind
    then (elim task [
      | some t ↦ with_task goal phase t
      | none ↦ without_task goal phase (drafted_task host state goal phase)
    ])
    else with_phase goal phase task

-- `computeNextAction(state)`.
unfoldable pub compute_next_action : Host → State → NextActionContext
unfolding without_phase for_phase
compute_next_action host state = elim (active_goal state) [
  | none ↦ record { goal = none; phase = none; task = none; advice = create_goal }
  | some goal ↦ elim (open_review state goal) [
    | some r ↦ record {
      goal = some goal;
      phase = active_phase state goal;
      task = none;
      advice = inspect_review r.id r.status;
    }
    | none ↦ elim (active_phase state goal) [
      | none ↦ record {
        goal = some goal;
        phase = none;
        task = none;
        advice = without_phase goal (phases_for_goal state goal.id);
      }
      | some phase ↦ for_phase host state goal phase (active_task state phase)
    ]
  ]
]
