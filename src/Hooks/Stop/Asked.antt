-- ===== src/Hooks/Stop/Asked.antt =====
-- What src/hooks/stop.ts asks of a goal: which one it is, whether it waits, whether its tracker is
-- available, and which tickets need attention.
use ycm_harness.Common.{
  ◌≡◌, refl, sym, ap, ◌∙◌, ◌↔◌, ◌⊎◌, inl, inr, String, Bool, true, Option, none, some, List, [],
  ◌∷◌, arith, In, find, false_with, Bool-cases, Option-cases,
}
use ycm_harness.Hooks.Json.{Fields, records_in}
use ycm_harness.Hooks.Stop.{
  text_at, record_at, one_of, goal_in, goal_of, unless_terminal, active_goal, goal_statuses,
  terminal_goal_statuses,
}
use ycm_harness.Hooks.Stop.Words.{Among, one_of_iff}

-- The first of a list of which it holds.
pub data First {ℓ κ} {A : Type ℓ} (P : A → Type κ) : List A → A → Type (ℓ ⊔ κ) where
  at_head : {x : A} {xs : List A} → P x → First P (x ∷ xs) x
  in_tail : {x y : A} {xs : List A} → (P y → ⊥) → First P xs x → First P (y ∷ xs) x

module _ {ℓ κ} {A : Type ℓ} {P : A → Type κ} (p : A → Bool)
    (means : (x : A) → (p x ≡ true) ↔ P x) where
  find-First : (xs : List A) (x : A) → find p xs ≡ some x → First P xs x
  find-First [] x h = cc
  find-First (y ∷ ys) x h = elim (Bool-cases (p y)) [
    | inl e ↦ let same : y ≡ x = ground (arith, rw e at h) in rw (← same) (at_head ((means y).0 e))
    | inr e ↦ in_tail ((false_with (means y)).0 e) (find-First ys x (rw e at h))
  ]

  First-find : {xs : List A} {x : A} → First P xs x → find p xs ≡ some x
  First-find (at_head {x} {xs} q) = rw ((means x).1 q) refl
  First-find (in_tail {x} {y} {xs} n f) = rw ((false_with (means y)).1 n) (First-find f)

  find_iff : (xs : List A) (x : A) → (find p xs ≡ some x) ↔ First P xs x
  find_iff xs x = (find-First xs x, First-find)

-- The goal that the state names as active, or else the first one with a status of a goal.
abbrev pub Chosen : Fields → Fields → Type 0
Chosen raw goal =
    (goals : Fields) × (record_at "goals" raw ≡ some goals)
    × (((id : String) × (text_at "active_goal_id" raw ≡ some id) × (record_at id goals ≡ some goal))
        ⊎ (((id : String) → text_at "active_goal_id" raw ≡ some id → record_at id goals ≡ none)
            × First
                (λ g.
                  Among ("planning" ∷ "active" ∷ "verifying" ∷ "blocked" ∷ "draft" ∷ [])
                    (text_at "status" g))
                (records_in goals) goal))

-- A goal with a status that is not a final one.
abbrev pub Going : Fields → Type 0
Going goal =
    (s : String) × (text_at "status" goal ≡ some s)
    × (In s ("done" ∷ "abandoned" ∷ "cancelled" ∷ "complete" ∷ []) → ⊥)

goal_in_iff :
    (raw goal : Fields) (o : Option Fields)
    → record_at "goals" raw ≡ o
    → (goal_in raw o ≡ some goal) ↔ Chosen raw goal
goal_in_iff raw goal none e = (λ h. cc, λ (goals, e', _). ground arith)
goal_in_iff raw goal (some goals) e = (to, from)
  where
    first :
        (find (λ g. one_of goal_statuses (text_at "status" g)) (records_in goals) ≡ some goal)
        ↔ First (λ g. Among goal_statuses (text_at "status" g)) (records_in goals) goal
    first = find_iff _ (λ g. one_of_iff goal_statuses (text_at "status" g)) (records_in goals) goal

    to : goal_in raw (some goals) ≡ some goal → Chosen raw goal
    to h = elim (Option-cases (text_at "active_goal_id" raw)) [
      | inl absent ↦ (goals, e, inr (λ id q. cc, first.0 (rw (goal_in, absent) at h)))
      | inr (id, given) ↦ elim (Option-cases (record_at id goals)) [
        | inl lost ↦ (
          goals,
          e,
          inr (
            λ k q. let same : id ≡ k = ground arith in rw (← same) lost,
            first.0 (rw (goal_in, given, lost) at h),
          ),
        )
        | inr (g, found) ↦ (goals, e, inl (id, given, found ∙ rw (goal_in, given, found) at h))
      ]
    ]

    from : Chosen raw goal → goal_in raw (some goals) ≡ some goal
    from (other, e', c) =
        let same : other ≡ goals = ground arith in
        elim c [
          | inl (id, given, found) ↦
              let found' : record_at id goals ≡ some goal = rw (← same) found in
              rw (given, found') refl
          | inr (unnamed, f) ↦
              let f' = first.1 (rw same at f) in
              elim (Option-cases (text_at "active_goal_id" raw)) [
                | inl absent ↦ rw absent f'
                | inr (id, given) ↦
                    let lost : record_at id goals ≡ none = rw (← same) (unnamed id given) in
                    rw (given, lost) f'
              ]
        ]

unless_terminal_iff :
    (o : Option Fields) (goal : Fields)
    → (unless_terminal o ≡ some goal) ↔ ((o ≡ some goal) × Going goal)
unless_terminal_iff none goal = (λ h. cc, λ (e, _). cc)
unless_terminal_iff (some g) goal = (to, from)
  where
    final :
        (one_of terminal_goal_statuses (text_at "status" g) ≡ true)
        ↔ Among terminal_goal_statuses (text_at "status" g)
    final = one_of_iff terminal_goal_statuses (text_at "status" g)

    to : unless_terminal (some g) ≡ some goal → (some g ≡ some goal) × Going goal
    to h = elim (Option-cases (text_at "status" g)) [
      | inl absent ↦ absurd (no (rw absent at h))
      | inr (s, given) ↦ elim (Bool-cases (one_of terminal_goal_statuses (some s))) [
        | inl over ↦ absurd (no (rw (given, over) at h))
        | inr open_one ↦
            let same : g ≡ goal = some_same (rw (given, open_one) at h) in
            (
              ap some same,
              rw (← same) (
                s,
                given,
                λ i.
                    (false_with (one_of_iff terminal_goal_statuses (some s))).0 open_one
                      (s, refl, i),
              ),
            )
      ]
    ]
      where
        no : ◌≡◌ {A = Option Fields} none (some goal) → ⊥
        no q = cc

        some_same : {x : Fields} → some x ≡ some goal → x ≡ goal
        some_same q = ground arith

    from : (some g ≡ some goal) × Going goal → unless_terminal (some g) ≡ some goal
    from (e, (s, given, unended)) =
        let same : g ≡ goal = ground arith in
        let given' : text_at "status" g ≡ some s = rw same given in
        let still =
          (false_with final).1 (λ (w, at, i). unended (rw (some_inj (sym given' ∙ at)) i)) in
        rw (still, given') e
      where
        some_inj : {x y : String} → some x ≡ some y → x ≡ y
        some_inj q = ground arith

-- The goal of the state, which is not over.
abbrev pub ActiveGoal : Fields → Fields → Type 0
ActiveGoal raw goal = Chosen raw goal × Going goal

pub active_goal_iff : (raw goal : Fields) → (active_goal raw ≡ some goal) ↔ ActiveGoal raw goal
unfolding active_goal goal_of
active_goal_iff raw goal =
    let going = unless_terminal_iff (goal_of raw) goal in
    let chosen = goal_in_iff raw goal (record_at "goals" raw) refl in
    (λ h. let (e, g) = going.0 h in (chosen.0 e, g), λ (c, g). going.1 (chosen.1 c, g))
