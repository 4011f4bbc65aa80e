-- ===== src/Workflow/NextAction/Coherent.antt =====
-- Where the phase and the task of the next action come from.
use ycm_harness.Common.{
  ◌≡◌, refl, sym, ◌∙◌, ◌⊎◌, inl, inr, true, false, Option, none, some, eq_iff, Host, lookup, values,
  find, find-some, In, In-filter, In-sort, head-sort-In, or_else, Option-cases, Bool-cases,
  and-eq-true_iff,
}
use ycm_harness.Schema.Legacy.{
  State, Goal, Phase, PhaseKind, explore, discuss, design, plan, execute, validate, finish, Task,
}
use ycm_harness.Workflow.NextAction.{
  NextActionContext, compute_next_action, active_goal, active_phase, active_task, open_review,
  phases_for_goal, tasks_for_phase, phase_before, task_before, drafted_task, drafted_before,
  in_other_phase, for_phase, with_kind, with_task, without_task, phase_blocked, executes,
  task_active, task_pending, phase_active, phase_pending,
}

or_else_found {ℓ} :
    {A : Type ℓ} (a b : Option A) {x : A} → or_else a b ≡ some x → (a ≡ some x) ⊎ (b ≡ some x)
or_else_found none b h = inr h
or_else_found (some a) b h = inl h

-- The phase is one of the goal's.
abbrev pub OfGoal : State → Goal → Phase → Type 0
OfGoal state goal p = In p (values state.phases) × (p.goal_id ≡ goal.id)

phases_lem :
    (state : State) (goal : Goal) (p : Phase)
    → In p (phases_for_goal state goal.id)
    → OfGoal state goal p
unfolding phases_for_goal
phases_lem state goal p i =
    let (j, q) = In-filter _ _ (In-sort phase_before _ i) in (j, (eq_iff _ _).0 q)

active_phase-OfGoal :
    (state : State) (goal : Goal) (p : Phase)
    → active_phase state goal ≡ some p
    → OfGoal state goal p
unfolding active_phase
active_phase-OfGoal state goal p h =
    elim (or_else_found (find phase_active (phases_for_goal state goal.id))
      (find phase_pending (phases_for_goal state goal.id)) h) [
        | inl q ↦ phases_lem state goal p (find-some _ _ p q).0
        | inr q ↦ phases_lem state goal p (find-some _ _ p q).0
      ]

-- The task is one of the phase's, or of another stored phase of the goal.
abbrev pub Within : State → Goal → Phase → Task → Type 0
Within state goal p t =
    In t (values state.tasks)
    × ((t.phase_id ≡ p.id)
        ⊎ ((q : Phase) × (lookup t.phase_id state.phases ≡ some q) × (q.goal_id ≡ goal.id)))

tasks_lem :
    (state : State) (goal : Goal) (p : Phase) (t : Task)
    → In t (tasks_for_phase state p.id)
    → Within state goal p t
unfolding tasks_for_phase
tasks_lem state goal p t i =
    let (j, q) = In-filter _ _ (In-sort task_before _ i) in (j, inl ((eq_iff _ _).0 q))

active_task-Within :
    (state : State) (goal : Goal) (p : Phase) (t : Task)
    → active_task state p ≡ some t
    → Within state goal p t
unfolding active_task
active_task-Within state goal p t h =
    elim (or_else_found (find task_active (tasks_for_phase state p.id))
      (find task_pending (tasks_for_phase state p.id)) h) [
        | inl q ↦ tasks_lem state goal p t (find-some _ _ t q).0
        | inr q ↦ tasks_lem state goal p t (find-some _ _ t q).0
      ]

drafted_task-Within :
    (host : Host) (state : State) (goal : Goal) (p : Phase) (t : Task)
    → drafted_task host state goal p ≡ some t
    → Within state goal p t
unfolding drafted_task
drafted_task-Within host state goal p t h =
    let (i, q) =
      In-filter (in_other_phase state goal p) _ (head-sort-In (drafted_before host) _ t h) in
    let (j, _) = In-filter _ _ i in (j, inr (other q))
  where
    other :
        in_other_phase state goal p t ≡ true
        → (q : Phase) × (lookup t.phase_id state.phases ≡ some q) × (q.goal_id ≡ goal.id)
    other q = elim (Option-cases (lookup t.phase_id state.phases)) [
      | inl e ↦ absurd (no (rw (in_other_phase, e) at q))
      | inr (x, e) ↦
          (x, e, (eq_iff _ _).0 ((and-eq-true_iff _ _).0 (rw (in_other_phase, e) at q)).0)
    ]
      where
        no : false ≡ true → ⊥
        no r = cc

-- The action is for the phase of the goal, and its task is within.
abbrev For : State → Goal → Phase → NextActionContext → Type 0
For state goal p a =
    (a.goal ≡ some goal)
    × (a.phase ≡ some p)
    × ((t : Task) → a.task ≡ some t → Within state goal p t)

abbrev AllWithin : State → Goal → Phase → Option Task → Type 0
AllWithin state goal p o = (t : Task) → o ≡ some t → Within state goal p t

with_kind-For :
    (state : State) (kind : PhaseKind) (goal : Goal) (p : Phase) (o : Option Task)
    → AllWithin state goal p o
    → For state goal p (with_kind kind goal p o)
unfolding with_kind
with_kind-For state validate goal p o w = (refl, refl, w)
with_kind-For state finish goal p o w = (refl, refl, λ t h. cc)
with_kind-For state explore goal p o w = (refl, refl, w)
with_kind-For state discuss goal p o w = (refl, refl, w)
with_kind-For state design goal p o w = (refl, refl, w)
with_kind-For state plan goal p o w = (refl, refl, w)
with_kind-For state execute goal p o w = (refl, refl, w)

with_task-For :
    (state : State) (goal : Goal) (p : Phase) (t : Task)
    → AllWithin state goal p (some t)
    → For state goal p (with_task goal p t)
unfolding with_task
with_task-For state goal p t w = elim (Bool-cases (task_active t)) [
  | inl e ↦ rw (with_task, e) (refl, refl, w)
  | inr e ↦ elim (Bool-cases (task_pending t)) [
    | inl f ↦ rw (with_task, e, f) (refl, refl, w)
    | inr f ↦ rw (with_task, e, f) (with_kind-For state p.kind goal p (some t) w)
  ]
]

without_task-For :
    (state : State) (goal : Goal) (p : Phase) (o : Option Task)
    → AllWithin state goal p o
    → For state goal p (without_task goal p o)
unfolding without_task
without_task-For state goal p none w = (refl, refl, λ t h. cc)
without_task-For state goal p (some t) w = (refl, refl, w)

for_phase-For :
    (host : Host) (state : State) (goal : Goal) (p : Phase) (o : Option Task)
    → AllWithin state goal p o
    → For state goal p (for_phase host state goal p o)
unfolding for_phase
for_phase-For host state goal p o w = elim (Bool-cases (phase_blocked p)) [
  | inl e ↦ rw (for_phase, e) (refl, refl, w)
  | inr e ↦ elim (Bool-cases (executes p.kind)) [
    | inl f ↦ rw (for_phase, e, f) (by_task o w)
    | inr f ↦ rw (for_phase, e, f) (with_kind-For state p.kind goal p o w)
  ]
]
  where
    by_task :
        (o : Option Task)
        → AllWithin state goal p o
        → For state goal p (elim o [
          | some t ↦ with_task goal p t
          | none ↦ without_task goal p (drafted_task host state goal p)
        ])
    by_task (some t) w = with_task-For state goal p t w
    by_task none w =
        without_task-For state goal p _ (λ t h. drafted_task-Within host state goal p t h)

-- What the action names belongs to the active goal.
abbrev pub Coherent : State → NextActionContext → Type 0
Coherent state a =
    (a.goal ≡ active_goal state)
    × ((p : Phase)
        → a.phase ≡ some p
        → (g : Goal) × (active_goal state ≡ some g) × OfGoal state g p)
    × ((t : Task)
        → a.task ≡ some t
        → (g : Goal) × (p : Phase) × (active_goal state ≡ some g)
          × (a.phase ≡ some p)
          × Within state g p t)

-- The goal of the next action is the active goal; its phase, if it names one, is a stored phase of that
-- goal; and its task, if it names one, is a stored task of that phase or of another stored phase of the
-- goal. For every runtime and V2 state.
pub compute_next_action-Coherent :
    (host : Host) (state : State) → Coherent state (compute_next_action host state)
unfolding compute_next_action
compute_next_action-Coherent host state = elim (Option-cases (active_goal state)) [
  | inl e ↦ rw (compute_next_action, e) (refl, λ p h. cc, λ t h. cc)
  | inr (g, e) ↦ elim (Option-cases (open_review state g)) [
    | inr (r, o) ↦
        rw (compute_next_action, e, o)
          (refl, λ p h. (g, refl, active_phase-OfGoal state g p h), λ t h. cc)
    | inl o ↦ elim (Option-cases (active_phase state g)) [
      | inl n ↦ rw (compute_next_action, e, o, n) (refl, λ p h. cc, λ t h. cc)
      | inr (p, n) ↦
          let (a, b, c) =
            for_phase-For host state g p (active_task state p)
              (λ t h. active_task-Within state g p t h) in
          rw (compute_next_action, e, o, n)
            (
              a,
              λ q h. (g, refl, active_phase-OfGoal state g q (n ∙ sym b ∙ h)),
              λ t h. (g, p, refl, b, c t h),
            )
    ]
  ]
]
