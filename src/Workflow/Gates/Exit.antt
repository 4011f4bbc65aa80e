-- ===== src/Workflow/Gates/Exit.antt =====
-- When `evaluatePhaseExitGate` lets a goal leave a phase.
use ycm_harness.Common.{
  ℕ, ◌≤◌, ◌≡◌, refl, ◌↔◌, inl, inr, Bool, true, false, ◌&&◌, Option, none, some, List, [], arith,
  Host, ltb, lookup, values, any, length, In, is_empty-In_iff, is_empty_iff, and-eq-true_iff,
  append_iff, push_not_iff, push_iff, push_unless_iff, push_both_iff, Bool-cases, All,
}
use ycm_harness.Schema.Legacy.{
  State, Phase, PhaseKind, explore, discuss, design, plan, execute, validate, finish, Task,
  CheckpointKind, decision, SmokeEvidence, SmokeOutcome, RitualRecord, RitualKind, grill_me,
  ralplan, ultrawork, ralph, review_gate, project_wiki_update, explore_codebase,
  explore_knowledge_base, ArtifactKind, user_story, prd, implementation_plan, test_plan, progress,
  explore_report, explore_synthesis, review_output,
}
use ycm_harness.Enforcement.StrictMode.{Env, strict_gates_enabled}
use ycm_harness.Enforcement.Smoke.{is_pass, smoke_has_execution_proof}
use ycm_harness.Workflow.Records.{
  phase_tasks, phase_smoke, goal_artifacts_of_kind, meta_bool, writing_plan_ritual,
}
use ycm_harness.Workflow.Records.Found.{
  RitualDone, has_ritual_iff, CheckpointMade, has_checkpoint_iff, Filed, Filed-iff, ReviewPassed,
  passed_review_iff, phase_smoke_iff,
}
use ycm_harness.Workflow.Gates.Tasks.{TaskReady, is_pass_iff, tasks_iff}
use ycm_harness.Workflow.Gates.{
  phase_smoke_not_executed, needs, needs_artifact, explore_missing, discuss_missing, plan_missing,
  writing_plan_missing, ralplan_missing, execute_missing, validate_missing, phase_smoke_missing,
  finish_missing, missing_for, evaluate_phase_exit_gate,
}

needs_iff :
    (state : State) (phase : Phase) (kind : RitualKind)
    → (needs state phase kind ≡ []) ↔ RitualDone state phase.id kind
needs_iff state phase kind = push_not_iff _ (has_ritual_iff state phase.id kind)

needs_artifact_iff :
    (state : State) (phase : Phase) (kind : ArtifactKind)
    → (needs_artifact state phase kind ≡ []) ↔ Filed state phase.goal_id kind
needs_artifact_iff state phase kind = push_iff _ (Filed-iff state phase.goal_id kind)

-- The writing-plans ritual says whether a ralplan is required, and it is on record if so.
abbrev pub PlannedBy : State → Phase → Option RitualRecord → Type 0
PlannedBy state phase newest =
    (wp : RitualRecord) × (newest ≡ some wp)
    × (wanted : Bool) × (meta_bool (lookup "ralplan_required" wp.metadata) ≡ some wanted)
    × (wanted ≡ true → RitualDone state phase.id ralplan)

ralplan_iff :
    (state : State) (phase : Phase) (wanted : Option Bool)
    → (ralplan_missing state phase wanted ≡ [])
      ↔ ((b : Bool) × (wanted ≡ some b) × (b ≡ true → RitualDone state phase.id ralplan))
ralplan_iff state phase none = (λ h. cc, λ (b, e, f). cc)
ralplan_iff state phase (some true) =
    let done_iff = push_not_iff _ (has_ritual_iff state phase.id ralplan) in
    (λ h. (true, refl, λ _. done_iff.0 h), λ (b, e, f). done_iff.1 (f (ground arith)))
ralplan_iff state phase (some false) = (λ h. (false, refl, λ e. cc), λ (b, e, f). refl)

planned_iff :
    (state : State) (phase : Phase) (newest : Option RitualRecord)
    → (writing_plan_missing state phase newest ≡ []) ↔ PlannedBy state phase newest
unfolding writing_plan_missing
planned_iff state phase none = (λ h. cc, λ p. cc (p.1))
planned_iff state phase (some wp) =
    let inner = ralplan_iff state phase (meta_bool (lookup "ralplan_required" wp.metadata)) in
    (
      λ h. let (b, e, f) = inner.0 h in (wp, refl, b, e, f),
      λ (other, same, b, e, f). let eq : wp ≡ other = ground arith in inner.1 (b, rw eq e, f),
    )

-- A passing smoke of the phase, executed under the strict gates.
abbrev pub PhaseSmoked : Env → State → Phase → Type 0
PhaseSmoked env state phase =
    ((s : SmokeEvidence) × In s (values state.smoke)
      × (s.phase_id ≡ some phase.id)
      × (s.outcome ≡ SmokeOutcome.pass))
    × (strict_gates_enabled env ≡ true
        → (s : SmokeEvidence) × In s (values state.smoke)
          × (s.phase_id ≡ some phase.id)
          × (s.outcome ≡ SmokeOutcome.pass)
          × (smoke_has_execution_proof s ≡ true))

phase_smoke_any :
    (env : Env) (smokes : List SmokeEvidence)
    → (phase_smoke_missing env smokes ≡ []) ↔ (
        (any (λ s. is_pass s.outcome) smokes ≡ true)
        × (strict_gates_enabled env ≡ true
            → any (λ s. is_pass s.outcome && smoke_has_execution_proof s) smokes ≡ true))
unfolding phase_smoke_missing
phase_smoke_any env smokes = elim (Bool-cases (any (λ s. is_pass s.outcome) smokes)) [
  | inl e ↦
      let inner =
        push_unless_iff (strict_gates_enabled env) phase_smoke_not_executed (λ h. h, λ h. h) in
      rw (e, phase_smoke_missing) (λ h. (refl, inner.0 h), λ h. inner.1 h.1)
  | inr e ↦ rw (e, phase_smoke_missing) (λ h. cc, λ h. cc (h.0))
]

PhaseSmoked-iff :
    (env : Env) (state : State) (phase : Phase)
    → (phase_smoke_missing env (phase_smoke state phase.id) ≡ []) ↔ PhaseSmoked env state phase
PhaseSmoked-iff env state phase =
    let outer = phase_smoke_any env (phase_smoke state phase.id) in
    let passing = phase_smoke_iff state phase (λ s. is_pass s.outcome) in
    let executed =
      phase_smoke_iff state phase (λ s. is_pass s.outcome && smoke_has_execution_proof s) in
    (
      λ h.
          let (some_pass, strict) = outer.0 h in
          let (s, i, at, p) = passing.0 some_pass in
          (
            (s, i, at, (is_pass_iff _).0 p),
            λ e.
                let (t, j, where_at, q) = executed.0 (strict e) in
                let (o, x) = (and-eq-true_iff _ _).0 q in (t, j, where_at, (is_pass_iff _).0 o, x),
          ),
      λ ((s, i, at, p), strict). outer.1 (
        passing.1 (s, i, at, (is_pass_iff _).1 p),
        λ e.
            let (t, j, where_at, o, x) = strict e in
            executed.1 (t, j, where_at, (and-eq-true_iff _ _).1 ((is_pass_iff _).1 o, x)),
      ),
    )

-- What must be on record, for each kind of phase, before the phase is left.
abbrev pub ExitMet : PhaseKind → Host → Env → State → Phase → Type 0
ExitMet explore host env state phase =
    Filed state phase.goal_id explore_synthesis
    × ((2 ≤ length (goal_artifacts_of_kind state phase.goal_id explore_report))
        × (RitualDone state phase.id explore_codebase
            × RitualDone state phase.id explore_knowledge_base))
ExitMet discuss host env state phase =
    RitualDone state phase.id grill_me
    × (CheckpointMade state phase.id decision
        × (Filed state phase.goal_id user_story × Filed state phase.goal_id prd))
ExitMet design host env state phase = Filed state phase.goal_id ArtifactKind.design
ExitMet plan host env state phase =
    PlannedBy state phase (writing_plan_ritual host state phase.id)
    × (Filed state phase.goal_id implementation_plan
        × (Filed state phase.goal_id test_plan × ((t : Task) × In t (phase_tasks state phase.id))))
ExitMet execute host env state phase =
    RitualDone state phase.id ultrawork
    × (RitualDone state phase.id ralph
        × All (TaskReady env state phase) (phase_tasks state phase.id))
ExitMet validate host env state phase =
    PhaseSmoked env state phase
    × ((strict_gates_enabled env ≡ true → Filed state phase.goal_id review_output)
        × (RitualDone state phase.id review_gate × ReviewPassed host env state phase.id))
ExitMet finish host env state phase =
    Filed state phase.goal_id progress
    × (RitualDone state phase.id project_wiki_update
        × CheckpointMade state phase.id CheckpointKind.manual)

reports_iff : (n : ℕ) → (ltb n 2 ≡ false) ↔ (2 ≤ n)
reports_iff n = (λ h. ground arith, λ h. ground arith)

missing_iff :
    (kind : PhaseKind) (host : Host) (env : Env) (state : State) (phase : Phase)
    → (missing_for kind host env state phase ≡ []) ↔ ExitMet kind host env state phase
unfolding explore_missing discuss_missing plan_missing execute_missing validate_missing
    finish_missing
missing_iff explore host env state phase = append_iff (needs_artifact_iff state phase _) (
    append_iff (push_iff _ (reports_iff _))
      (append_iff (needs_iff state phase _) (needs_iff state phase _)))
missing_iff discuss host env state phase = append_iff (needs_iff state phase _) (
    append_iff (push_not_iff _ (has_checkpoint_iff state phase.id decision))
      (append_iff (needs_artifact_iff state phase _) (needs_artifact_iff state phase _)))
missing_iff design host env state phase = needs_artifact_iff state phase _
missing_iff plan host env state phase = append_iff (planned_iff state phase _) (
    append_iff (needs_artifact_iff state phase _) (
      append_iff (needs_artifact_iff state phase _)
        (push_iff _ (is_empty-In_iff (phase_tasks state phase.id)))))
missing_iff execute host env state phase =
    append_iff (needs_iff state phase _)
      (append_iff (needs_iff state phase _) (tasks_iff env state phase _))
missing_iff validate host env state phase = append_iff (PhaseSmoked-iff env state phase) (
    append_iff
      (push_both_iff (strict_gates_enabled env) _ (Filed-iff state phase.goal_id review_output))
      (append_iff (needs_iff state phase _)
        (push_not_iff _ (passed_review_iff host env state phase.id))))
missing_iff finish host env state phase = append_iff (needs_artifact_iff state phase _) (
    append_iff (needs_iff state phase _)
      (push_not_iff _ (has_checkpoint_iff state phase.id CheckpointKind.manual)))

-- A phase may be left exactly when what its kind asks for is on record: for `validate`, say, a
-- passing smoke, a review output under the strict gates, the review-gate ritual, and a review
-- that was closed as passed and whose gate still passes.
pub exit_gate_iff :
    (host : Host) (env : Env) (state : State) (phase : Phase)
    → ((evaluate_phase_exit_gate host env state phase).allowed ≡ true)
      ↔ ExitMet phase.kind host env state phase
unfolding evaluate_phase_exit_gate
exit_gate_iff host env state phase =
    let inner = missing_iff phase.kind host env state phase in
    (λ h. inner.0 ((is_empty_iff _).0 h), λ m. (is_empty_iff _).1 (inner.1 m))
