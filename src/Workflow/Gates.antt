-- ===== src/Workflow/Gates.antt =====
-- src/workflow/phase-gates.ts: what must be on record before a phase is left. A missing item
-- stands for its message, with the values that the message shows.
pub mod Tasks
pub mod Exit
use ycm_harness.Common.{
  ℕ, String, Bool, true, false, not, ◌&&◌, ◌||◌, Option, none, some, List, [], ◌∷◌, ◌++◌, ◌==◌,
  Host, Dict, ltb, eqb, if◌then◌else◌, opt_eq, lower_is, lookup, values, any, filter, filter_map,
  length, head?, sort, push_if, is_empty, test,
}
use ycm_harness.Schema.Legacy.{
  State, Phase, PhaseKind, explore, discuss, design, plan, execute, validate, finish, Task,
  TaskStatus, done, cancelled, SmokeRequirement, required, Checkpoint, CheckpointKind, decision,
  SmokeEvidence, RitualRecord, RitualKind, RitualStatus, complete, Metadata, flag, text, other,
  grill_me, writing_plans, ralplan, ultrawork, ralph, review_gate, project_wiki_update,
  explore_codebase, explore_knowledge_base, Artifact, ArtifactKind, user_story, prd,
  implementation_plan, test_plan, progress, explore_report, explore_synthesis, review_output,
  CommitRecord,
}
use ycm_harness.Schema.Legacy
use ycm_harness.Schema.Reviews.{ReviewSession, ReviewSessionStatus, TargetKind}
use ycm_harness.Enforcement.StrictMode.{Env, strict_gates_enabled}
use ycm_harness.Enforcement.Smoke.{is_pass, smoke_has_execution_proof}
use ycm_harness.Workflow.Records.{
  has_ritual, has_checkpoint, phase_tasks, phase_smoke, goal_artifacts_of_kind, meta_bool,
  writing_plan_ritual, passed_review_for_phase, commit_records_for_goal,
}
use ycm_harness.Review.{decide_gate, GateStatus}

pub data Missing : Type 0 where
  artifact : ArtifactKind → Missing
  explore_reports : ℕ → Missing
  ritual : RitualKind → Missing
  decision_checkpoint manual_checkpoint ralplan_metadata ralplan_ritual no_task : Missing
  unfinished_task no_smoke_evidence no_passing_smoke smoke_not_executed no_commit : String → Missing
  no_passing_phase_smoke phase_smoke_not_executed no_passed_review : Missing

abbrev needs : State → Phase → RitualKind → List Missing
needs state phase kind = push_if (not (has_ritual state phase.id kind)) (ritual kind)

abbrev needs_artifact : State → Phase → ArtifactKind → List Missing
needs_artifact state phase kind =
    push_if (ltb (length (goal_artifacts_of_kind state phase.goal_id kind)) 1) (artifact kind)

pub explore_missing : State → Phase → List Missing
explore_missing state phase =
    let reports = length (goal_artifacts_of_kind state phase.goal_id explore_report) in
    needs_artifact state phase explore_synthesis
    ++ (push_if (ltb reports 2) (explore_reports reports)
        ++ (needs state phase explore_codebase ++ needs state phase explore_knowledge_base))

pub discuss_missing : State → Phase → List Missing
discuss_missing state phase =
    needs state phase grill_me
    ++ (push_if (not (has_checkpoint state phase.id decision)) decision_checkpoint
        ++ (needs_artifact state phase user_story ++ needs_artifact state phase prd))

abbrev ralplan_missing : State → Phase → Option Bool → List Missing
ralplan_missing state phase none = ralplan_metadata ∷ []
ralplan_missing state phase (some wanted) =
    push_if (wanted && not (has_ritual state phase.id ralplan)) ralplan_ritual

writing_plan_missing : State → Phase → Option RitualRecord → List Missing
writing_plan_missing state phase none = ritual writing_plans ∷ []
writing_plan_missing state phase (some wp) =
    ralplan_missing state phase (meta_bool (lookup "ralplan_required" wp.metadata))

pub plan_missing : Host → State → Phase → List Missing
unfolding writing_plan_missing
plan_missing host state phase =
    writing_plan_missing state phase (writing_plan_ritual host state phase.id)
    ++ (needs_artifact state phase implementation_plan
        ++ (needs_artifact state phase test_plan
            ++ push_if (is_empty (phase_tasks state phase.id)) no_task))

abbrev is_done : TaskStatus → Bool
is_done done = true
is_done _ = false

abbrev is_settled : TaskStatus → Bool
is_settled done = true
is_settled TaskStatus.blocked = true
is_settled cancelled = true
is_settled _ = false

abbrev is_required : SmokeRequirement → Bool
is_required required = true
is_required SmokeRequirement.not_applicable = false

pub task_smokes : State → Task → List SmokeEvidence
task_smokes state task = filter_map (λ id. lookup id state.smoke) task.smoke_evidence_ids

-- `needsCommit`.
abbrev needs_commit : Task → Bool
needs_commit task =
    is_done task.status
    && elim task.code_changed [ none ↦ is_required task.smoke | some changed ↦ changed ]

strict_smoke_missing : String → List SmokeEvidence → List Missing
strict_smoke_missing task_id passing =
    if is_empty passing
    then no_passing_smoke task_id ∷ []
    else push_if (not (any smoke_has_execution_proof passing)) (smoke_not_executed task_id)

pub task_missing : Env → State → Phase → Task → List Missing
unfolding strict_smoke_missing
task_missing env state phase task =
    push_if (not (is_settled task.status)) (unfinished_task task.id)
    ++ (push_if (is_done task.status && is_required task.smoke && is_empty task.smoke_evidence_ids)
          (no_smoke_evidence task.id)
        ++ ((if is_done task.status && is_required task.smoke && strict_gates_enabled env
              then strict_smoke_missing task.id
                  (filter (λ s. is_pass s.outcome) (task_smokes state task))
              else [])
            ++ push_if
                (needs_commit task
                  && not (
                      any (λ c. c.task_id == task.id)
                        (commit_records_for_goal state phase.goal_id)))
                (no_commit task.id)))

-- The loop over the tasks of the phase.
pub tasks_missing : Env → State → Phase → List Task → List Missing
tasks_missing env state phase [] = []
tasks_missing env state phase (t ∷ ts) =
    task_missing env state phase t ++ tasks_missing env state phase ts

pub execute_missing : Env → State → Phase → List Missing
unfolding tasks_missing
execute_missing env state phase =
    needs state phase ultrawork
    ++ (needs state phase ralph ++ tasks_missing env state phase (phase_tasks state phase.id))

-- The smoke part of the validate gate.
pub phase_smoke_missing : Env → List SmokeEvidence → List Missing
phase_smoke_missing env smokes =
    if not (any (λ s. is_pass s.outcome) smokes)
    then no_passing_phase_smoke ∷ []
    else push_if
        (strict_gates_enabled env
          && not (any (λ s. is_pass s.outcome && smoke_has_execution_proof s) smokes))
        phase_smoke_not_executed

pub validate_missing : Host → Env → State → Phase → List Missing
unfolding phase_smoke_missing
validate_missing host env state phase =
    phase_smoke_missing env (phase_smoke state phase.id)
    ++ (push_if
          (strict_gates_enabled env
            && ltb (length (goal_artifacts_of_kind state phase.goal_id review_output)) 1)
          (artifact review_output)
        ++ (needs state phase review_gate
            ++ push_if (not (passed_review_for_phase host env state phase.id)) no_passed_review))

pub finish_missing : State → Phase → List Missing
finish_missing state phase =
    needs_artifact state phase progress
    ++ (needs state phase project_wiki_update
        ++ push_if (not (has_checkpoint state phase.id CheckpointKind.manual)) manual_checkpoint)

abbrev missing_for : PhaseKind → Host → Env → State → Phase → List Missing
missing_for explore host env state phase = explore_missing state phase
missing_for discuss host env state phase = discuss_missing state phase
missing_for design host env state phase = needs_artifact state phase ArtifactKind.design
missing_for plan host env state phase = plan_missing host state phase
missing_for execute host env state phase = execute_missing env state phase
missing_for validate host env state phase = validate_missing host env state phase
missing_for finish host env state phase = finish_missing state phase

pub record PhaseGateDecision : Type 0 where
  pub allowed : Bool
  pub missing : List Missing

-- `evaluatePhaseExitGate(state, phase)`.
unfoldable pub evaluate_phase_exit_gate : Host → Env → State → Phase → PhaseGateDecision
evaluate_phase_exit_gate host env state phase =
    let missing = missing_for phase.kind host env state phase in
    record { allowed = is_empty missing; missing = missing }
