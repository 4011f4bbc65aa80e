-- ===== src/Migration/Goals.antt =====
-- The goals that `migrateV2ToV3` carries over.
use ycm_harness.Common.{
  ◌≡◌, refl, sym, ap, ◌∙◌, ◌↔◌, ◌⊎◌, inl, inr, String, true, Option, none, some, List, [], ◌∷◌,
  ◌==◌, ◌||◌, arith, eq_iff, eq_refl, Dict, lookup, assign, values, lookup-assign, In, here, there,
  In-cons, not-In-nil, filter, is_some, Host, Option-cases, Bool-cases,
}
use ycm_harness.Schema.Legacy.{Phase}
use ycm_harness.Schema.Legacy
use ycm_harness.Schema.Lean.{Goal, GoalStatus, LegacyArchive}
use ycm_harness.Migration.{migrated_goal, migrate_goals, migrate_v2_to_v3, goal_status, with_active}
use ycm_harness.Migration.Carried.{goal_status_iff}

-- The status of a migrated goal, for the status before.
pub record StatusKept (before : Legacy.GoalStatus) (after : GoalStatus) : Type 0 where
  pub drafted : before ≡ Legacy.GoalStatus.draft → after ≡ GoalStatus.planning
  pub ended : (after ≡ GoalStatus.done) ↔ (before ≡ Legacy.GoalStatus.done)
  pub blocked : (after ≡ GoalStatus.blocked) ↔ (before ≡ Legacy.GoalStatus.blocked)
  pub abandoned : (after ≡ GoalStatus.abandoned) ↔ (before ≡ Legacy.GoalStatus.abandoned)

-- The goal is one of the old goals, under its identifier.
pub record GoalFrom (gs : List Legacy.Goal) (id : String) (g : Goal) : Type 0 where
  pub old : Legacy.Goal
  pub present : In old gs
  pub named : old.id ≡ id
  pub same_id : g.id ≡ old.id
  pub same_title : g.title ≡ old.title
  pub status : StatusKept old.status g.status

goal_status-StatusKept :
    (s : Legacy.GoalStatus) (phases : List Phase) → StatusKept s (goal_status s phases)
unfolding goal_status
goal_status-StatusKept s phases =
    let (d, b, a) = goal_status_iff s phases in
    record { drafted = λ e. rw e refl; ended = d; blocked = b; abandoned = a }

some_inj {ℓ} : {A : Type ℓ} {x y : A} → some x ≡ some y → x ≡ y
some_inj h = ground arith

migrate_goals-some :
    (phases : List Phase) (gs : List Legacy.Goal) (d : Dict Goal) (id : String) (g : Goal)
    → lookup id (migrate_goals phases gs d) ≡ some g
    → GoalFrom gs id g ⊎ (lookup id d ≡ some g)
unfolding migrate_goals
migrate_goals-some phases [] d id g h = inr h
migrate_goals-some phases (x ∷ xs) d id g h =
    let mine = filter (λ p. p.goal_id == x.id) phases in
    elim (migrate_goals-some phases xs (assign x.id (migrated_goal x mine) d) id g h) [
      | inl f ↦ inl (record {
        old = f.old;
        present = there f.present;
        named = f.named;
        same_id = f.same_id;
        same_title = f.same_title;
        status = f.status;
      })
      | inr q ↦ elim (Bool-cases (x.id == id)) [
        | inl b ↦
            let same = some_inj (rw (lookup-assign x.id id (migrated_goal x mine) d, b) at q) in
            inl (record {
              old = x;
              present = here;
              named = (eq_iff _ _).0 b;
              same_id = sym (ap (λ (y : Goal). y.id) same);
              same_title = sym (ap (λ (y : Goal). y.title) same);
              status = rw (← same) (goal_status-StatusKept x.status mine);
            })
        | inr b ↦ inr (rw (lookup-assign x.id id (migrated_goal x mine) d, b) at q)
      ]
    ]

migrate_goals-keeps :
    (phases : List Phase) (gs : List Legacy.Goal) (d : Dict Goal) (id : String)
    → is_some (lookup id d) ≡ true
    → is_some (lookup id (migrate_goals phases gs d)) ≡ true
unfolding migrate_goals
migrate_goals-keeps phases [] d id h = h
migrate_goals-keeps phases (x ∷ xs) d id h =
    let g = migrated_goal x (filter (λ p. p.goal_id == x.id) phases) in
    migrate_goals-keeps phases xs (assign x.id g d) id (
      rw (lookup-assign x.id id g d)
        (elim (Bool-cases (x.id == id)) [ inl b ↦ rw b refl | inr b ↦ rw b h ]))

migrate_goals-brings :
    (phases : List Phase) (gs : List Legacy.Goal) (d : Dict Goal) (old : Legacy.Goal)
    → In old gs
    → is_some (lookup old.id (migrate_goals phases gs d)) ≡ true
unfolding migrate_goals
migrate_goals-brings phases [] d old i = absurd (not-In-nil i)
migrate_goals-brings phases (x ∷ xs) d old i =
    let g = migrated_goal x (filter (λ p. p.goal_id == x.id) phases) in
    elim (In-cons i) [
      | inl s ↦
          migrate_goals-keeps phases xs (assign x.id g d) old.id
            (rw (s, lookup-assign x.id x.id g d, eq_refl x.id) refl)
      | inr j ↦ migrate_goals-brings phases xs (assign x.id g d) old j
    ]

with_active-From :
    (gs : List Legacy.Goal) (goals : Dict Goal) (active ticket : Option String)
    → ((k : String) (x : Goal) → lookup k goals ≡ some x → GoalFrom gs k x)
    → (id : String) (g : Goal) → lookup id (with_active active ticket goals) ≡ some g
    → GoalFrom gs id g
with_active-From gs goals none ticket from id g h = from id g h
with_active-From gs goals (some a) none from id g h = from id g h
with_active-From gs goals (some a) (some t) from id g h = elim (Option-cases (lookup a goals)) [
  | inl e ↦ from id g (rw (with_active, e) at h)
  | inr (x, found) ↦ elim (Bool-cases (a == "" || t == "")) [
    | inl b ↦ from id g (rw (with_active, found, b) at h)
    | inr b ↦
        let y = record x { active_ticket_id = some t } in
        let q : lookup id (assign x.id y goals) ≡ some g = rw (with_active, found, b) at h in
        elim (Bool-cases (x.id == id)) [
          | inr other ↦ from id g (rw (lookup-assign x.id id y goals, other) at q)
          | inl same ↦
              let f = from a x found in
              let e : y ≡ g = some_inj (rw (lookup-assign x.id id y goals, same) at q) in
              rw (← e) (record {
                old = f.old;
                present = f.present;
                named = sym f.same_id ∙ (eq_iff _ _).0 same;
                same_id = f.same_id;
                same_title = f.same_title;
                status = f.status;
              })
        ]
  ]
]

with_active-keeps :
    (goals : Dict Goal) (active ticket : Option String) (id : String)
    → is_some (lookup id goals) ≡ true
    → is_some (lookup id (with_active active ticket goals)) ≡ true
with_active-keeps goals none ticket id h = h
with_active-keeps goals (some a) none id h = h
with_active-keeps goals (some a) (some t) id h = elim (Option-cases (lookup a goals)) [
  | inl e ↦ rw (with_active, e) h
  | inr (x, found) ↦ elim (Bool-cases (a == "" || t == "")) [
    | inl b ↦ rw (with_active, found, b) h
    | inr b ↦
        let y = record x { active_ticket_id = some t } in
        rw (with_active, found, b, lookup-assign x.id id y goals)
          (elim (Bool-cases (x.id == id)) [ inl c ↦ rw c refl | inr c ↦ rw c h ])
  ]
]

none_stored : (id : String) (g : Goal) → lookup id [] ≡ some g → ⊥
unfolding lookup
none_stored id g q = cc

-- A goal of a migrated state has the identifier and the title of a stored V2 goal. It is done,
-- blocked or abandoned exactly when the V2 goal was, and planning if the V2 goal was a draft. Every
-- stored V2 goal has such a goal under its identifier. For every runtime, V2 state, archive and
-- time.
pub migrated_goals_lem :
    (host : Host) (v2 : Legacy.State) (archive : Option LegacyArchive) (now : String)
    → ((id : String) (g : Goal)
        → lookup id (migrate_v2_to_v3 host v2 archive now).goals ≡ some g
        → GoalFrom (values v2.goals) id g)
      × ((old : Legacy.Goal)
          → In old (values v2.goals)
          → is_some (lookup old.id (migrate_v2_to_v3 host v2 archive now).goals) ≡ true)
unfolding migrate_v2_to_v3
migrated_goals_lem host v2 archive now = (
  λ id g h. with_active-From (values v2.goals) _ v2.active_goal_id _ stored_goal id g h,
  λ old i.
      with_active-keeps _ v2.active_goal_id _ old.id
        (migrate_goals-brings (values v2.phases) (values v2.goals) [] old i),
)
  where
    stored_goal :
        (k : String) (x : Goal)
        → lookup k (migrate_goals (values v2.phases) (values v2.goals) []) ≡ some x
        → GoalFrom (values v2.goals) k x
    stored_goal k x h = elim (migrate_goals-some (values v2.phases) (values v2.goals) [] k x h) [
      | inl f ↦ f
      | inr q ↦ absurd (none_stored k x q)
    ]
