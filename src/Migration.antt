-- ===== src/Migration.antt =====
-- src/migration/v2-to-v3.ts: the lean state of a V2 state. The V2 state has been parsed, and the
-- schema accepts the result.
pub mod Unproven
pub mod Carried
pub mod Goals
mod Tests
use Prim.Native.Char.{code}
use Prim.Native.String
use ycm_harness.Common.{
  ℕ, suc, ◌+◌, ◌-◌, String, Bool, true, false, not, ◌&&◌, ◌||◌, Option, none, some, List, [], ◌∷◌,
  ◌==◌, reverse, Host, Dict, ltb, leb, eqb, if◌then◌else◌, truthy, opt_eq, lookup, assign, values,
  filter, filter_map, find, sort, is_some, or_else,
}
use ycm_harness.Schema.Legacy.{
  Phase, PhaseKind, execute, validate, finish, PhaseStatus, Task, TaskStatus, SmokeEvidence,
  SmokeOutcome, SmokeRecordingMode, CommitRecord, Session,
}
use ycm_harness.Schema.Legacy
use ycm_harness.Schema.Lean.{
  Goal, GoalStatus, planning, verifying, standard, local, Ticket, TicketStatus, todo, in_progress,
  Checkpoint, EvidencePointer, EvidenceKind, EvidenceOutcome, LegacyArchive, State, empty_state_v3,
}

abbrev by_order : Phase → Phase → Bool
by_order a b = leb a.order b.order

abbrev is_active : PhaseStatus → Bool
is_active PhaseStatus.active = true
is_active _ = false

abbrev is_pending : PhaseStatus → Bool
is_pending PhaseStatus.pending = true
is_pending _ = false

abbrev closes : PhaseKind → Bool
closes validate = true
closes finish = true
closes _ = false

abbrev executes : PhaseKind → Bool
executes execute = true
executes _ = false

-- The status of a goal whose V2 status is `active`, from its phases in order.
active_goal_status : List Phase → GoalStatus
active_goal_status ordered = elim (find (λ p. is_active p.status) ordered) [
  | some active ↦
      if closes active.kind
      then verifying
      else if not (executes active.kind)
      then planning
      else GoalStatus.active
  | none ↦ elim (find (λ p. not (is_pending p.status)) (reverse ordered)) [
    | none ↦ GoalStatus.active
    | some latest ↦ if closes latest.kind then verifying else GoalStatus.active
  ]
]

-- `goalStatus(goal, phases)`.
unfoldable pub goal_status : Legacy.GoalStatus → List Phase → GoalStatus
unfolding active_goal_status sort
goal_status Legacy.GoalStatus.draft phases = planning
goal_status Legacy.GoalStatus.blocked phases = GoalStatus.blocked
goal_status Legacy.GoalStatus.done phases = GoalStatus.done
goal_status Legacy.GoalStatus.abandoned phases = GoalStatus.abandoned
goal_status Legacy.GoalStatus.active phases = active_goal_status (sort by_order phases)

-- `ticketStatus(status)`.
unfoldable pub ticket_status : TaskStatus → TicketStatus
ticket_status TaskStatus.pending = todo
ticket_status TaskStatus.active = in_progress
ticket_status TaskStatus.blocked = TicketStatus.blocked
ticket_status TaskStatus.done = TicketStatus.done
ticket_status TaskStatus.cancelled = TicketStatus.cancelled

abbrev pub migrated_goal : Legacy.Goal → List Phase → Goal
migrated_goal g phases = record {
  id = g.id;
  title = g.title;
  description = g.description;
  status = goal_status g.status phases;
  assurance = standard;
  backend = local;
  active_ticket_id = none;
  worktree_path = g.worktree_path;
  branch = g.branch;
  base_sha = g.base_sha;
  worktree_status = g.worktree_status;
  stop_enforcement = false;
  created_at = g.created_at;
  updated_at = g.updated_at;
}

-- The loop over the goals. The phases of a goal are those that name it.
unfoldable pub migrate_goals : List Phase → List Legacy.Goal → Dict Goal → Dict Goal
migrate_goals phases [] goals = goals
migrate_goals phases (g ∷ gs) goals =
    migrate_goals phases gs
      (assign g.id (migrated_goal g (filter (λ p. p.goal_id == g.id) phases)) goals)

-- `new Map(phases.map((phase) => [phase.id, phase.goal_id]))`.
phase_goals : List Phase → Dict String → Dict String
phase_goals [] d = d
phase_goals (p ∷ ps) d = phase_goals ps (assign p.id p.goal_id d)

pub record TaskEntry : Type 0 where
  pub task : Task
  pub phase : Phase

abbrev pub entry_of : Dict Phase → Task → Option TaskEntry
entry_of phases task = elim (lookup task.phase_id phases) [
  | none ↦ none
  | some phase ↦ some (record { task = task; phase = phase })
]

abbrev pub entry_before : Host → TaskEntry → TaskEntry → Bool
entry_before host a b =
    ltb a.phase.order b.phase.order
    || eqb a.phase.order b.phase.order
      && (ltb a.task.order b.task.order
          || eqb a.task.order b.task.order && host.locale_le a.task.id b.task.id)

abbrev pub changed : Option Bool → Bool
changed none = false
changed (some b) = b

abbrev pub migrated_ticket : TaskEntry → ℕ → Ticket
migrated_ticket e order = record {
  id = e.task.id;
  goal_id = e.phase.goal_id;
  title = e.task.title;
  brief = e.task.brief;
  acceptance = [];
  blocked_by = [];
  status = ticket_status e.task.status;
  code_changed = changed e.task.code_changed;
  order = order;
  created_at = e.task.created_at;
  updated_at = e.task.updated_at;
}

-- The loop over the tasks, from an order on.
unfoldable pub migrate_tasks : ℕ → List TaskEntry → Dict Ticket → Dict Ticket
migrate_tasks order [] tickets = tickets
migrate_tasks order (e ∷ es) tickets =
    migrate_tasks (suc order) es (assign e.task.id (migrated_ticket e order) tickets)

task_goals : List TaskEntry → Dict String → Dict String
task_goals [] d = d
task_goals (e ∷ es) d = task_goals es (assign e.task.id e.phase.goal_id d)

abbrev kept_ticket : Dict Ticket → Option String → Option String
kept_ticket tickets none = none
kept_ticket tickets (some id) =
    if not (id == "") && is_some (lookup id tickets) then some id else none

abbrev migrated_checkpoint : Dict Ticket → Legacy.Checkpoint → Checkpoint
migrated_checkpoint tickets c = record {
  id = c.id;
  goal_id = c.goal_id;
  ticket_id = kept_ticket tickets c.task_id;
  kind = c.kind;
  title = c.title;
  notes = c.notes;
  decisions = c.decisions;
  next_action = c.next_action;
  created_at = c.created_at;
}

migrate_checkpoints : Dict Ticket → List Legacy.Checkpoint → Dict Checkpoint → Dict Checkpoint
migrate_checkpoints tickets [] d = d
migrate_checkpoints tickets (c ∷ cs) d =
    migrate_checkpoints tickets cs (assign c.id (migrated_checkpoint tickets c) d)

abbrev outcome_of : SmokeOutcome → EvidenceOutcome
outcome_of SmokeOutcome.pass = EvidenceOutcome.pass
outcome_of SmokeOutcome.fail = EvidenceOutcome.fail
outcome_of SmokeOutcome.not_applicable = EvidenceOutcome.not_applicable

abbrev mode_name : SmokeRecordingMode → String
mode_name SmokeRecordingMode.executed = "executed"
mode_name SmokeRecordingMode.manual = "manual"

abbrev recorded : Option String → String → String
recorded none at = at
recorded (some executed_at) at = executed_at

-- `addVerificationEvidence(target, smoke, goalId)`.
unfoldable pub add_verification_evidence :
    Dict EvidencePointer → SmokeEvidence → Option String → Dict EvidencePointer
add_verification_evidence target smoke none = target
add_verification_evidence target smoke (some goal_id) =
    if goal_id == ""
    then target
    else assign (String.◌++◌ "smoke_" smoke.id)
        (record {
          id = String.◌++◌ "smoke_" smoke.id;
          goal_id = goal_id;
          ticket_id = smoke.task_id;
          kind = EvidenceKind.verification;
          submission_digest = none;
          evidence_digest = smoke.log_sha256;
          evidence_path = smoke.log_file;
          remote_comment_id = none;
          command = smoke.command;
          outcome = some (outcome_of smoke.outcome);
          provenance =
              ("recording_mode", mode_name smoke.recording_mode)
              ∷ ("recorded_at", smoke.recorded_at)
              ∷ [];
          recorded_at = recorded smoke.executed_at smoke.recorded_at;
        })
        target

-- `s.slice(0, n)` in UTF-16 units; a character that does not fit whole is left out.
slice : ℕ → String → String
slice n String.[] = ""
slice n (String.◌∷◌ c s) =
    let units = if ltb (code c) 65536 then 1 else 2 in
    let rest = slice (n - units) s in if ltb n units then "" else String.◌∷◌ c rest

-- `addCommitEvidence(target, commit, goalId)`.
unfoldable pub add_commit_evidence :
    Dict EvidencePointer → CommitRecord → Option String → Dict EvidencePointer
unfolding slice
add_commit_evidence target commit none = target
add_commit_evidence target commit (some goal_id) =
    if goal_id == ""
    then target
    else assign (String.◌++◌ "commit_" commit.id)
        (record {
          id = String.◌++◌ "commit_" commit.id;
          goal_id = goal_id;
          ticket_id = some commit.task_id;
          kind = EvidenceKind.commit;
          submission_digest = none;
          evidence_digest = some commit.sha;
          evidence_path = none;
          remote_comment_id = none;
          command = none;
          outcome = none;
          provenance = ("summary", slice 500 commit.summary) ∷ [];
          recorded_at = commit.created_at;
        })
        target

abbrev or_empty : Option String → String
or_empty none = ""
or_empty (some s) = s

unfoldable pub migrate_smokes :
    Dict String → Dict String → List SmokeEvidence → Dict EvidencePointer → Dict EvidencePointer
migrate_smokes tasks phases [] d = d
migrate_smokes tasks phases (s ∷ ss) d = migrate_smokes tasks phases ss (
    add_verification_evidence d s
      (or_else (lookup (or_empty s.task_id) tasks) (lookup (or_empty s.phase_id) phases)))

unfoldable pub migrate_commits :
    Dict String → List CommitRecord → Dict EvidencePointer → Dict EvidencePointer
migrate_commits tasks [] d = d
migrate_commits tasks (c ∷ cs) d =
    migrate_commits tasks cs (add_commit_evidence d c (lookup c.task_id tasks))

abbrev is_in_progress : TicketStatus → Bool
is_in_progress in_progress = true
is_in_progress _ = false

abbrev active_session : Legacy.State → Option Session
active_session v2 = elim v2.active_session_id [
  | none ↦ none
  | some id ↦ if id == "" then none else lookup id v2.sessions
]

abbrev id_of : Option Ticket → Option String
id_of none = none
id_of (some t) = some t.id

abbrev same_goal : Option String → String → Bool
same_goal none id = false
same_goal (some g) id = id == g

abbrev task_of : Option Session → Option String
task_of none = none
task_of (some s) = s.active_task_id

-- `activeTicketId`.
abbrev active_ticket : Legacy.State → Dict Ticket → Option String
active_ticket v2 tickets = or_else (kept_ticket tickets (task_of (active_session v2))) (
    id_of (
      find (λ t. same_goal v2.active_goal_id t.goal_id && is_in_progress t.status)
        (values tickets)))

abbrev pub with_active : Option String → Option String → Dict Goal → Dict Goal
with_active none ticket goals = goals
with_active (some id) none goals = goals
with_active (some id) (some ticket) goals = elim (lookup id goals) [
  | none ↦ goals
  | some goal ↦
      if id == "" || ticket == ""
      then goals
      else assign goal.id (record goal { active_ticket_id = some ticket }) goals
]

abbrev pub entries_of : Host → Legacy.State → List TaskEntry
entries_of host v2 = sort (entry_before host) (filter_map (entry_of v2.phases) (values v2.tasks))

abbrev pub tickets_of : Host → Legacy.State → Dict Ticket
tickets_of host v2 = migrate_tasks 0 (entries_of host v2) []

-- `migrateV2ToV3(raw, { archive, now })`, for a parsed state.
unfoldable pub migrate_v2_to_v3 : Host → Legacy.State → Option LegacyArchive → String → State
unfolding phase_goals task_goals migrate_checkpoints empty_state_v3 sort
migrate_v2_to_v3 host v2 archive now =
    let phases = values v2.phases in
    let entries = entries_of host v2 in
    let tickets = tickets_of host v2 in
    let tasks = task_goals entries [] in
    record (empty_state_v3 now) {
      created_at = v2.created_at;
      updated_at = now;
      active_goal_id = v2.active_goal_id;
      goals =
          with_active v2.active_goal_id (active_ticket v2 tickets)
            (migrate_goals phases (values v2.goals) []);
      local_tickets = tickets;
      checkpoints = migrate_checkpoints tickets (values v2.checkpoints) [];
      evidence =
          migrate_commits tasks (values v2.commits)
            (migrate_smokes tasks (phase_goals phases []) (values v2.smoke) []);
      wiki = v2.wiki;
      legacy_archive = archive;
    }
