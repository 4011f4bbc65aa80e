-- ===== src/Migration/Tests.antt =====
-- The migration of a small V2 state.
use ycm_harness.Common.{
  ◌≡◌, refl, ◌↔◌, String, In, values, true, none, some, [], ◌∷◌, lookup, assign, is_some,
  code_point_host, sort,
}
use ycm_harness.Schema.Legacy.{
  Phase, execute, PhaseStatus, Task, TaskStatus, SmokeRequirement, empty_state,
}
use ycm_harness.Schema.Legacy
use ycm_harness.Schema.Lean.{State, Goal, Ticket}
use ycm_harness.Tickets.Evidence.{completion_evidence}
use ycm_harness.Migration.{migrate_v2_to_v3, migrate_tasks, migrated_ticket}
use ycm_harness.Migration.Unproven.{migrated_evidence_incomplete}
use ycm_harness.Migration.Goals.{GoalFrom, migrated_goals_lem}
use ycm_harness.Migration.Carried.{Placed, From, migrated_ticket_iff, migrated_ticket-From}

abbrev phase : Phase
phase = record {
  id = "p1";
  goal_id = "g1";
  kind = execute;
  title = "P";
  summary = none;
  status = PhaseStatus.active;
  order = 0;
  created_at = "2024";
  updated_at = "2024";
}

abbrev task : Task
task = record {
  id = "t1";
  phase_id = "p1";
  title = "T";
  brief = none;
  status = TaskStatus.done;
  smoke = SmokeRequirement.required;
  code_changed = some true;
  smoke_evidence_ids = [];
  order = 0;
  created_at = "2024";
  updated_at = "2024";
}

abbrev draft : Legacy.Goal
draft = record {
  id = "g1";
  title = "G";
  description = none;
  status = Legacy.GoalStatus.draft;
  worktree_path = none;
  branch = none;
  base_sha = none;
  worktree_status = Legacy.WorktreeStatus.pending;
  created_at = "2024";
  updated_at = "2024";
}

abbrev v2 : Legacy.State
v2 = record (empty_state "2024") {
  goals = ("g1", draft) ∷ [];
  phases = ("p1", phase) ∷ [];
  tasks = ("t1", task) ∷ [];
}

abbrev v3 : State
v3 = migrate_v2_to_v3 code_point_host v2 none "2025"

abbrev ticket : Ticket
ticket = migrated_ticket (record { task = task; phase = phase }) 0

stored : lookup "t1" v3.local_tickets ≡ some ticket
unfolding migrate_v2_to_v3 migrate_tasks sort lookup assign
stored = refl

migrated_evidence_incomplete_example : completion_evidence code_point_host v3 ticket ≡ none
migrated_evidence_incomplete_example =
    migrated_evidence_incomplete code_point_host v2 none "2025" ticket

migrated_ticket_iff_example :
    (is_some (lookup "t1" v3.local_tickets) ≡ true)
    ↔ ((task : Task) × (phase : Phase) × Placed v2 task phase × (task.id ≡ "t1"))
migrated_ticket_iff_example = migrated_ticket_iff code_point_host v2 none "2025" "t1"

migrated_ticket-From_example : From v2 "t1" ticket
migrated_ticket-From_example =
    migrated_ticket-From code_point_host v2 none "2025" "t1" ticket stored

migrated_goals_lem_example :
    ((id : String) (g : Goal) → lookup id v3.goals ≡ some g → GoalFrom (values v2.goals) id g)
    × ((old : Legacy.Goal) → In old (values v2.goals) → is_some (lookup old.id v3.goals) ≡ true)
migrated_goals_lem_example = migrated_goals_lem code_point_host v2 none "2025"
