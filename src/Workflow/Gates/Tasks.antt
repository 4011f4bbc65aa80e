-- ===== src/Workflow/Gates/Tasks.antt =====
-- When the execute gate finds nothing missing for a task, and for all tasks of a phase.
use ycm_harness.Common.{
  ◌≡◌, refl, ◌≢◌, ◌↔◌, ◌⊎◌, inl, inr, String, Bool, true, ◌&&◌, List, [], ◌∷◌, arith, values, any,
  filter, is_empty, push_if, In, any_iff, is_empty_iff, In-filter_iff, and-eq-true_iff, append_iff,
  push_not_iff, guarded_iff, push_unless_iff, Bool-cases, All,
}
use ycm_harness.Schema.Legacy.{
  State, Phase, Task, TaskStatus, done, cancelled, SmokeRequirement, required, SmokeEvidence,
  SmokeOutcome, CommitRecord,
}
use ycm_harness.Enforcement.StrictMode.{Env, strict_gates_enabled}
use ycm_harness.Enforcement.Smoke.{is_pass, smoke_has_execution_proof}
use ycm_harness.Workflow.Records.Found.{commit_iff}
use ycm_harness.Workflow.Gates.{
  Missing, tasks_missing, task_missing, task_smokes, strict_smoke_missing, is_done, is_settled,
  is_required, needs_commit,
}

-- What the exit of the execute phase asks of one task.
pub record TaskReady (env : Env) (state : State) (phase : Phase) (task : Task) : Type 0 where
  pub settled :
      (task.status ≡ done) ⊎ (task.status ≡ TaskStatus.blocked) ⊎ (task.status ≡ cancelled)
  pub smoked : task.status ≡ done → task.smoke ≡ required → task.smoke_evidence_ids ≢ []
  pub executed :
      task.status ≡ done
      → task.smoke ≡ required
      → strict_gates_enabled env ≡ true
      → (s : SmokeEvidence) × In s (task_smokes state task)
        × (s.outcome ≡ SmokeOutcome.pass)
        × (smoke_has_execution_proof s ≡ true)
  pub committed :
      needs_commit task ≡ true
      → (c : CommitRecord) × In c (values state.commits)
        × (c.goal_id ≡ phase.goal_id)
        × (c.task_id ≡ task.id)

is_done_iff : (s : TaskStatus) → (is_done s ≡ true) ↔ (s ≡ done)
is_done_iff done = (λ _. refl, λ _. refl)
is_done_iff _ = (λ h. cc, λ h. cc)

is_required_iff : (s : SmokeRequirement) → (is_required s ≡ true) ↔ (s ≡ required)
is_required_iff required = (λ _. refl, λ _. refl)
is_required_iff _ = (λ h. cc, λ h. cc)

pub is_pass_iff : (o : SmokeOutcome) → (is_pass o ≡ true) ↔ (o ≡ SmokeOutcome.pass)
is_pass_iff SmokeOutcome.pass = (λ _. refl, λ _. refl)
is_pass_iff _ = (λ h. cc, λ h. cc)

settled_iff :
    (s : TaskStatus)
    → (is_settled s ≡ true) ↔ ((s ≡ done) ⊎ (s ≡ TaskStatus.blocked) ⊎ (s ≡ cancelled))
settled_iff done = (λ _. inl refl, λ _. refl)
settled_iff TaskStatus.blocked = (λ _. inr (inl refl), λ _. refl)
settled_iff cancelled = (λ _. inr (inr refl), λ _. refl)
settled_iff TaskStatus.pending = (λ h. cc, λ h. ground arith)
settled_iff TaskStatus.active = (λ h. cc, λ h. ground arith)

both_iff {ℓ κ} :
    {P : Type ℓ} {Q : Type κ} (a b : Bool)
    → (a ≡ true) ↔ P
    → (b ≡ true) ↔ Q
    → ((a && b) ≡ true) ↔ (P × Q)
both_iff a b p q = (
  λ h. let (x, y) = (and-eq-true_iff _ _).0 h in (p.0 x, q.0 y),
  λ h. (and-eq-true_iff _ _).1 (p.1 h.0, q.1 h.1),
)

-- The test of a done task that needs smoke.
abbrev runnable : Task → Bool
runnable task = is_done task.status && is_required task.smoke

runnable_iff :
    (task : Task) → (runnable task ≡ true) ↔ ((task.status ≡ done) × (task.smoke ≡ required))
runnable_iff task = both_iff _ _ (is_done_iff task.status) (is_required_iff task.smoke)

smoked_iff :
    (task : Task) (item : Missing)
    → (push_if (runnable task && is_empty task.smoke_evidence_ids) item ≡ [])
      ↔ (task.status ≡ done → task.smoke ≡ required → task.smoke_evidence_ids ≢ [])
smoked_iff task item = (
  λ h d r none_given.
      cc (
        rw ((runnable_iff task).1 (d, r), (is_empty_iff task.smoke_evidence_ids).1 none_given) at
          h),
  λ f. elim (Bool-cases (runnable task)) [
    | inl e ↦
        let (d, r) = (runnable_iff task).0 e in
        elim (Bool-cases (is_empty task.smoke_evidence_ids)) [
          | inl none_given ↦ absurd (f d r ((is_empty_iff _).0 none_given))
          | inr given ↦ rw (e, given)
        ]
    | inr e ↦ rw e
  ],
)

strict_smoke_any :
    (task_id : String) (passing : List SmokeEvidence)
    → (strict_smoke_missing task_id passing ≡ []) ↔ (any smoke_has_execution_proof passing ≡ true)
unfolding strict_smoke_missing
strict_smoke_any task_id [] = (λ h. cc, λ h. cc)
strict_smoke_any task_id (s ∷ ss) = push_not_iff _ (λ h. h, λ h. h)

strict_smoke_iff :
    (task_id : String) (smokes : List SmokeEvidence)
    → (strict_smoke_missing task_id (filter (λ s. is_pass s.outcome) smokes) ≡ []) ↔ (
        (s : SmokeEvidence) × In s smokes
        × (s.outcome ≡ SmokeOutcome.pass)
        × (smoke_has_execution_proof s ≡ true))
strict_smoke_iff task_id smokes =
    let by_any = strict_smoke_any task_id (filter (λ s. is_pass s.outcome) smokes) in
    (
      λ h.
          let (s, i, e) = (any_iff _ _).0 (by_any.0 h) in
          let (j, p) = (In-filter_iff _ _).0 i in (s, j, (is_pass_iff _).0 p, e),
      λ (s, i, p, e).
          by_any.1 ((any_iff _ _).1 (s, (In-filter_iff _ _).1 (i, (is_pass_iff _).1 p), e)),
    )

-- One task of the phase has nothing missing.
pub task_iff :
    (env : Env) (state : State) (phase : Phase) (task : Task)
    → (task_missing env state phase task ≡ []) ↔ TaskReady env state phase task
unfolding task_missing
task_iff env state phase task =
    let parts = append_iff (push_not_iff _ (settled_iff task.status)) (
      append_iff (smoked_iff task _) (
        append_iff
          (guarded_iff (runnable task && strict_gates_enabled env)
            (strict_smoke_iff task.id (task_smokes state task)))
          (push_unless_iff (needs_commit task) _ (commit_iff state phase task)))) in
    (
      λ h.
          let (settled, rest) = parts.0 h in
          let (smoked, rest') = rest in
          let (executed, committed) = rest' in
          record {
            settled = settled;
            smoked = smoked;
            executed = λ d r strict.
                executed ((and-eq-true_iff _ _).1 ((runnable_iff task).1 (d, r), strict));
            committed = committed;
          },
      λ ready. parts.1 (
        ready.settled,
        (
          ready.smoked,
          (
            λ e.
                let (run, strict) = (and-eq-true_iff _ _).0 e in
                let (d, r) = (runnable_iff task).0 run in ready.executed d r strict,
            ready.committed,
          ),
        ),
      ),
    )

-- All the tasks of the phase are ready.
pub tasks_iff :
    (env : Env) (state : State) (phase : Phase) (ts : List Task)
    → (tasks_missing env state phase ts ≡ []) ↔ All (TaskReady env state phase) ts
unfolding tasks_missing
tasks_iff env state phase [] = (λ _. tt, λ _. refl)
tasks_iff env state phase (t ∷ ts) =
    append_iff (task_iff env state phase t) (tasks_iff env state phase ts)
