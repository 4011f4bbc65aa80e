-- ===== src/Migration/Carried.antt =====
-- The tickets and the goal statuses that `migrateV2ToV3` carries over.
use ycm_harness.Common.{
  ℕ, suc, ◌≡◌, refl, sym, ap, ◌∙◌, ◌↔◌, ◌⊎◌, inl, inr, String, Bool, true, false, Option, none,
  some, List, [], ◌∷◌, ◌==◌, arith, eq_iff, eq_refl, Dict, lookup, assign, values, lookup-assign,
  In, here, there, In-cons, not-In-nil, In-sort, In-sort_of, filter_map, is_some, Host,
  Option-cases, Bool-cases, sort,
}
use ycm_harness.Schema.Legacy.{Phase, Task, TaskStatus}
use ycm_harness.Schema.Legacy
use ycm_harness.Schema.Lean.{GoalStatus, Ticket, TicketStatus, LegacyArchive}
use ycm_harness.Migration.{
  TaskEntry, entry_of, entry_before, entries_of, migrated_ticket, migrate_tasks, migrate_v2_to_v3,
  changed, ticket_status, goal_status, active_goal_status, by_order,
}

In-filter_map {ℓ κ} :
    {A : Type ℓ} {B : Type κ} (f : B → Option A) (bs : List B) {a : A}
    → In a (filter_map f bs)
    → (b : B) × In b bs × (f b ≡ some a)
In-filter_map f [] i = absurd (not-In-nil i)
In-filter_map f (b ∷ bs) {a} i = elim (Option-cases (f b)) [
  | inl e ↦ let (c, j, q) = In-filter_map f bs (rw (filter_map, e) at i) in (c, there j, q)
  | inr (x, e) ↦ elim (In-cons (rw (filter_map, e) at i)) [
    | inl s ↦ (b, here, rw s e)
    | inr t ↦ let (c, j, q) = In-filter_map f bs t in (c, there j, q)
  ]
]

In-filter_map_of {ℓ κ} :
    {A : Type ℓ} {B : Type κ} (f : B → Option A) (bs : List B) {a : A} {b : B}
    → In b bs
    → f b ≡ some a
    → In a (filter_map f bs)
In-filter_map_of f [] i q = absurd (not-In-nil i)
In-filter_map_of f (b ∷ bs) here q = rw (filter_map, q) here
In-filter_map_of f (x ∷ bs) (there i) q = elim (Option-cases (f x)) [
  | inl e ↦ rw (filter_map, e) (In-filter_map_of f bs i q)
  | inr (y, e) ↦ rw (filter_map, e) (there (In-filter_map_of f bs i q))
]

-- The entry becomes the ticket.
abbrev pub Becomes : List TaskEntry → String → Ticket → Type 0
Becomes es id t =
    (e : TaskEntry) × (order : ℕ) × In e es × (e.task.id ≡ id) × (t ≡ migrated_ticket e order)

migrate_tasks-some :
    (n : ℕ) (es : List TaskEntry) (d : Dict Ticket) (id : String) (t : Ticket)
    → lookup id (migrate_tasks n es d) ≡ some t
    → Becomes es id t ⊎ (lookup id d ≡ some t)
unfolding migrate_tasks
migrate_tasks-some n [] d id t h = inr h
migrate_tasks-some n (e ∷ es) d id t h =
    elim (migrate_tasks-some (suc n) es (assign e.task.id (migrated_ticket e n) d) id t h) [
      | inl (x, order, i, q, s) ↦ inl (x, order, there i, q, s)
      | inr q ↦ elim (Bool-cases (e.task.id == id)) [
        | inl b ↦ inl (
          e,
          n,
          here,
          (eq_iff _ _).0 b,
          some_inj (rw (lookup-assign e.task.id id (migrated_ticket e n) d, b) at q),
        )
        | inr b ↦ inr (rw (lookup-assign e.task.id id (migrated_ticket e n) d, b) at q)
      ]
    ]
  where
    some_inj : {x : Ticket} → some x ≡ some t → t ≡ x
    some_inj h = ground arith

-- A ticket that is there stays there, and an entry of the list brings one.
migrate_tasks-keeps :
    (n : ℕ) (es : List TaskEntry) (d : Dict Ticket) (id : String)
    → is_some (lookup id d) ≡ true
    → is_some (lookup id (migrate_tasks n es d)) ≡ true
unfolding migrate_tasks
migrate_tasks-keeps n [] d id h = h
migrate_tasks-keeps n (e ∷ es) d id h =
    migrate_tasks-keeps (suc n) es (assign e.task.id (migrated_ticket e n) d) id (
      rw (lookup-assign e.task.id id (migrated_ticket e n) d)
        (elim (Bool-cases (e.task.id == id)) [ inl b ↦ rw b refl | inr b ↦ rw b h ]))

migrate_tasks-brings :
    (n : ℕ) (es : List TaskEntry) (d : Dict Ticket) (e : TaskEntry)
    → In e es
    → is_some (lookup e.task.id (migrate_tasks n es d)) ≡ true
unfolding migrate_tasks
migrate_tasks-brings n [] d e i = absurd (not-In-nil i)
migrate_tasks-brings n (x ∷ es) d e i = elim (In-cons i) [
  | inl s ↦
      migrate_tasks-keeps (suc n) es (assign x.task.id (migrated_ticket x n) d) e.task.id
        (rw (s, lookup-assign x.task.id x.task.id (migrated_ticket x n) d, eq_refl x.task.id) refl)
  | inr j ↦ migrate_tasks-brings (suc n) es (assign x.task.id (migrated_ticket x n) d) e j
]

none_stored : (id : String) (t : Ticket) → lookup id [] ≡ some t → ⊥
unfolding lookup
none_stored id t q = cc

-- A stored task whose phase is stored.
abbrev pub Placed : Legacy.State → Task → Phase → Type 0
Placed v2 task phase = In task (values v2.tasks) × (lookup task.phase_id v2.phases ≡ some phase)

entry-Placed :
    (host : Host) (v2 : Legacy.State) (e : TaskEntry)
    → In e (entries_of host v2)
    → Placed v2 e.task e.phase
entry-Placed host v2 e i =
    let (task, j, q) =
      In-filter_map (entry_of v2.phases) (values v2.tasks) (In-sort (entry_before host) _ i) in
    elim (Option-cases (lookup task.phase_id v2.phases)) [
      | inl absent ↦ absurd (no (rw (entry_of, absent) at q))
      | inr (phase, found) ↦
          let same : record { task = task; phase = phase } ≡ e =
            some_inj (rw (entry_of, found) at q) in
          rw (← same) (j, found)
    ]
  where
    no : ◌≡◌ {A = Option TaskEntry} none (some e) → ⊥
    no q = cc

    some_inj : {x : TaskEntry} → some x ≡ some e → x ≡ e
    some_inj h = ground arith

Placed-entry :
    (host : Host) (v2 : Legacy.State) (task : Task) (phase : Phase)
    → Placed v2 task phase
    → In (record { task = task; phase = phase }) (entries_of host v2)
Placed-entry host v2 task phase (i, found) =
    In-sort_of (entry_before host) _
      (In-filter_map_of (entry_of v2.phases) (values v2.tasks) i (rw (entry_of, found) refl))

-- A migrated state stores a ticket exactly for the identifiers of the stored tasks whose phase is
-- stored. For every runtime, V2 state, archive and time.
pub migrated_ticket_iff :
    (host : Host) (v2 : Legacy.State) (archive : Option LegacyArchive) (now id : String)
    → (is_some (lookup id (migrate_v2_to_v3 host v2 archive now).local_tickets) ≡ true)
      ↔ ((task : Task) × (phase : Phase) × Placed v2 task phase × (task.id ≡ id))
unfolding migrate_v2_to_v3
migrated_ticket_iff host v2 archive now id = (
  λ h. elim (Option-cases (lookup id (migrate_tasks 0 (entries_of host v2) []))) [
    | inl e ↦ absurd (no (rw e at h))
    | inr (t, found) ↦ elim (migrate_tasks-some 0 (entries_of host v2) [] id t found) [
      | inl (e, order, i, q, s) ↦ (e.task, e.phase, entry-Placed host v2 e i, q)
      | inr q ↦ absurd (nothing t q)
    ]
  ],
  λ (task, phase, p, q).
      rw (← q)
        (migrate_tasks-brings 0 (entries_of host v2) [] _ (Placed-entry host v2 task phase p)),
)
  where
    no : false ≡ true → ⊥
    no q = cc

    nothing : (t : Ticket) → lookup id [] ≡ some t → ⊥
    nothing t q = none_stored id t q

-- The status of a ticket for the status of its task.
pub record StatusOf (before : TaskStatus) (after : TicketStatus) : Type 0 where
  pub waits : before ≡ TaskStatus.pending → after ≡ TicketStatus.todo
  pub works : before ≡ TaskStatus.active → after ≡ TicketStatus.in_progress
  pub blocked : before ≡ TaskStatus.blocked → after ≡ TicketStatus.blocked
  pub finished : before ≡ TaskStatus.done → after ≡ TicketStatus.done
  pub cancelled : before ≡ TaskStatus.cancelled → after ≡ TicketStatus.cancelled

ticket_status-StatusOf : (s : TaskStatus) → StatusOf s (ticket_status s)
unfolding ticket_status
ticket_status-StatusOf s = record {
  waits = λ e. rw e refl;
  works = λ e. rw e refl;
  blocked = λ e. rw e refl;
  finished = λ e. rw e refl;
  cancelled = λ e. rw e refl;
}

-- What the ticket has of the task and of its phase.
abbrev pub Carries : Task → Phase → Ticket → Type 0
Carries task phase t =
    (t.id ≡ task.id)
    × (t.goal_id ≡ phase.goal_id)
    × (t.title ≡ task.title)
    × (t.blocked_by ≡ [])
    × (t.code_changed ≡ true → task.code_changed ≡ some true)
    × (task.code_changed ≡ some true → t.code_changed ≡ true)
    × StatusOf task.status t.status

-- The ticket comes from a stored task and its phase.
abbrev pub From : Legacy.State → String → Ticket → Type 0
From v2 id t =
    (task : Task) × (phase : Phase) × Placed v2 task phase × (task.id ≡ id) × Carries task phase t

changed-lem : (o : Option Bool) → (changed o ≡ true) ↔ (o ≡ some true)
changed-lem none = (λ h. cc, λ h. cc)
changed-lem (some b) = (λ h. ap some h, λ h. ground arith)

migrated_ticket-lem :
    (e : TaskEntry) (order : ℕ) (t : Ticket)
    → t ≡ migrated_ticket e order
    → Carries e.task e.phase t
migrated_ticket-lem e order t s = rw s (
  refl,
  refl,
  refl,
  refl,
  (changed-lem e.task.code_changed).0,
  (changed-lem e.task.code_changed).1,
  ticket_status-StatusOf e.task.status,
)

-- A ticket of a migrated state has the identifier and the title of a stored task, the goal of its
-- phase, no dependency, code changes exactly when the task says so, and is todo, in progress,
-- blocked, done or cancelled where the task is pending, active, blocked, done or cancelled. For every runtime, V2 state, archive and time.
pub migrated_ticket-From :
    (host : Host) (v2 : Legacy.State) (archive : Option LegacyArchive) (now id : String)
    (t : Ticket)
    → lookup id (migrate_v2_to_v3 host v2 archive now).local_tickets ≡ some t
    → From v2 id t
unfolding migrate_v2_to_v3
migrated_ticket-From host v2 archive now id t h =
    elim (migrate_tasks-some 0 (entries_of host v2) [] id t h) [
      | inl (e, order, i, q, s) ↦
          (e.task, e.phase, entry-Placed host v2 e i, q, migrated_ticket-lem e order t s)
      | inr q ↦ absurd (none_stored id t q)
    ]

abbrev ended : GoalStatus → Bool
ended GoalStatus.done = true
ended GoalStatus.blocked = true
ended GoalStatus.abandoned = true
ended _ = false

active_lem : (ordered : List Phase) → ended (active_goal_status ordered) ≡ false
unfolding active_goal_status
active_lem ordered = ground arith

not_ended :
    (ordered : List Phase) (x : GoalStatus) → ended x ≡ true → active_goal_status ordered ≡ x → ⊥
not_ended ordered x e h = no (sym e ∙ ap ended (sym h) ∙ active_lem ordered)
  where
    no : true ≡ false → ⊥
    no q = cc

-- The status of a goal is done, blocked or abandoned for exactly these statuses before.
pub goal_status_iff :
    (s : Legacy.GoalStatus) (phases : List Phase)
    → ((goal_status s phases ≡ GoalStatus.done) ↔ (s ≡ Legacy.GoalStatus.done))
      × ((goal_status s phases ≡ GoalStatus.blocked) ↔ (s ≡ Legacy.GoalStatus.blocked))
      × ((goal_status s phases ≡ GoalStatus.abandoned) ↔ (s ≡ Legacy.GoalStatus.abandoned))
unfolding goal_status
goal_status_iff Legacy.GoalStatus.draft phases =
    ((λ h. cc, λ h. cc), (λ h. cc, λ h. cc), (λ h. cc, λ h. cc))
goal_status_iff Legacy.GoalStatus.blocked phases =
    ((λ h. cc, λ h. cc), (λ h. refl, λ h. refl), (λ h. cc, λ h. cc))
goal_status_iff Legacy.GoalStatus.done phases =
    ((λ h. refl, λ h. refl), (λ h. cc, λ h. cc), (λ h. cc, λ h. cc))
goal_status_iff Legacy.GoalStatus.abandoned phases =
    ((λ h. cc, λ h. cc), (λ h. cc, λ h. cc), (λ h. refl, λ h. refl))
goal_status_iff Legacy.GoalStatus.active phases = (
  (λ h. absurd (not_ended (sort by_order phases) _ refl h), λ h. cc),
  (λ h. absurd (not_ended (sort by_order phases) _ refl h), λ h. cc),
  (λ h. absurd (not_ended (sort by_order phases) _ refl h), λ h. cc),
)
