-- ===== src/Sessions/Scope.antt =====
-- `resolveScopedGoal` and `releaseClaimsForGoal` of src/state/session-claims.ts.
use ycm_harness.Common.{
  ◌≡◌, ◌≢◌, refl, sym, ap, ◌∙◌, subst, ◌↔◌, ◌⊎◌, inl, inr, String, true, false, Option, none, some,
  arith, eq_iff, ◌==◌, List, [], ◌∷◌, Dict, lookup, delete, values, In, here, there, In-cons,
  not-In-nil, Option-cases, Bool-cases, Keyed,
}
use ycm_harness.Schema.Lean.{State, Goal, SessionClaim}
use ycm_harness.Sessions.{
  text_of, claims_of, claimed_goal, housed_goal, goal_by_worktree, cwd_inside_worktree, Paths,
  SessionScopeContext, resolve_scoped_goal, or_text, release_claims_for_goal, drop_goal,
}
use ycm_harness.Sessions.Entries.{In-delete_entry}

goal_by_worktree_lem :
    (paths : Paths) (gs : List Goal) (cwd root : String) (g : Goal)
    → goal_by_worktree paths gs cwd root ≡ some g
    → In g gs
      × ((tree : String) × (text_of g.worktree_path ≡ some tree)
          × (cwd_inside_worktree paths cwd root tree ≡ true))
unfolding goal_by_worktree
goal_by_worktree_lem paths [] cwd root g h = cc
goal_by_worktree_lem paths (x ∷ gs) cwd root g h = elim (Option-cases (text_of x.worktree_path)) [
  | inl e ↦
      let (i, q) = goal_by_worktree_lem paths gs cwd root g (rw (goal_by_worktree, e) at h) in
      (there i, q)
  | inr (tree, e) ↦ elim (Bool-cases (cwd_inside_worktree paths cwd root tree)) [
    | inl b ↦ found tree e b (some_inj (rw (goal_by_worktree, e, b) at h))
    | inr b ↦
        let (i, q) = goal_by_worktree_lem paths gs cwd root g (rw (goal_by_worktree, e, b) at h) in
        (there i, q)
  ]
]
  where
    some_inj : {a b : Goal} → some a ≡ some b → a ≡ b
    some_inj h = ground arith

    found :
        (tree : String)
        → text_of x.worktree_path ≡ some tree
        → cwd_inside_worktree paths cwd root tree ≡ true
        → x ≡ g
        → In g (x ∷ gs)
          × ((tree : String) × (text_of g.worktree_path ≡ some tree)
              × (cwd_inside_worktree paths cwd root tree ≡ true))
    found tree e b same =
        subst
          (λ y.
            In y (x ∷ gs)
            × ((tree : String) × (text_of y.worktree_path ≡ some tree)
                × (cwd_inside_worktree paths cwd root tree ≡ true)))
          same (here, (tree, e, b))

-- The session has claimed the goal.
abbrev pub Claimed : State → SessionScopeContext → Goal → Type 0
Claimed s ctx g =
    (id : String) × (claim : SessionClaim) × (text_of ctx.session_id ≡ some id)
    × (lookup id (claims_of s.session_claims) ≡ some claim)
    × (lookup claim.goal_id s.goals ≡ some g)

-- The working directory lies in the worktree of the goal.
abbrev pub Housed : Paths → State → SessionScopeContext → Goal → Type 0
Housed paths s ctx g =
    (cwd tree : String) × (text_of ctx.cwd ≡ some cwd)
    × In g (values s.goals)
    × (text_of g.worktree_path ≡ some tree)
    × (cwd_inside_worktree paths cwd (or_text (text_of ctx.root) cwd) tree ≡ true)

claimed_lem :
    (s : State) (ctx : SessionScopeContext) (o : Option String) (g : Goal)
    → text_of ctx.session_id ≡ o
    → claimed_goal s o ≡ some g
    → Claimed s ctx g
claimed_lem s ctx none g e h = cc
claimed_lem s ctx (some id) g e h = elim (Option-cases (lookup id (claims_of s.session_claims))) [
  | inl n ↦ absurd (no (rw (claimed_goal, n) at h))
  | inr (claim, c) ↦ (id, claim, e, c, rw (claimed_goal, c) at h)
]
  where
    no : ◌≡◌ {A = Option Goal} none (some g) → ⊥
    no q = cc

housed_lem :
    (paths : Paths) (s : State) (ctx : SessionScopeContext) (o : Option String) (g : Goal)
    → text_of ctx.cwd ≡ o
    → housed_goal paths s o (text_of ctx.root) ≡ some g
    → Housed paths s ctx g
housed_lem paths s ctx none g e h = cc
housed_lem paths s ctx (some cwd) g e h =
    let (i, (tree, t, b)) =
      goal_by_worktree_lem paths (values s.goals) cwd (or_text (text_of ctx.root) cwd) g h in
    (cwd, tree, e, i, t, b)

-- A goal that `resolveScopedGoal` gives to a session was claimed by this session, or, when the session's
-- claim leads to no goal, it is a stored goal whose worktree holds the session's working directory.
-- For all path functions, states and contexts: the active goal is never a fallback.
pub resolve_scoped_goal_owned :
    (paths : Paths) (s : State) (ctx : SessionScopeContext) (g : Goal)
    → resolve_scoped_goal paths s ctx ≡ some g
    → Claimed s ctx g ⊎ ((claimed_goal s (text_of ctx.session_id) ≡ none) × Housed paths s ctx g)
unfolding resolve_scoped_goal
resolve_scoped_goal_owned paths s ctx g h =
    elim (Option-cases (claimed_goal s (text_of ctx.session_id))) [
      | inl e ↦
          inr
            (e, housed_lem paths s ctx (text_of ctx.cwd) g refl (rw (resolve_scoped_goal, e) at h))
      | inr (c, e) ↦
          let same : some c ≡ some g = rw (resolve_scoped_goal, e) at h in
          inl (claimed_lem s ctx (text_of ctx.session_id) g refl (e ∙ same))
    ]

delete_other :
    (k j : String) (c : SessionClaim) (d : Dict SessionClaim)
    → j ≢ k
    → In (j, c) d
    → In (j, c) (delete k d)
unfolding delete
delete_other k j c [] n i = absurd (not-In-nil i)
delete_other k j c ((h, w) ∷ d) n i = elim (Bool-cases (h == k)) [
  | inl e ↦ elim (In-cons i) [
    | inl s ↦ absurd (n (ap (λ p. p.0) s ∙ (eq_iff h k).0 e))
    | inr t ↦ rw e (delete_other k j c d n t)
  ]
  | inr e ↦ elim (In-cons i) [
    | inl s ↦ rw (e, s) here
    | inr t ↦ rw e (there (delete_other k j c d n t))
  ]
]

drop_goal_iff :
    (d : Dict SessionClaim) (g k : String) (c : SessionClaim)
    → Keyed d
    → In (k, c) (drop_goal d g) ↔ (In (k, c) d × (c.goal_id ≢ g))
unfolding drop_goal
drop_goal_iff [] g k c u = (λ i. absurd (not-In-nil i), λ (i, n). absurd (not-In-nil i))
drop_goal_iff ((h, w) ∷ d) g k c u = elim (Bool-cases (w.goal_id == g)) [
  | inl e ↦ rw e (
    λ i.
        let (n, j) = In-delete_entry h (drop_goal d g) i in
        let (at, m) = (drop_goal_iff d g k c u.1).0 j in (there at, m),
    λ (i, m). elim (In-cons i) [
      | inl s ↦ absurd (m (ap (λ p. (p.1).goal_id) s ∙ (eq_iff w.goal_id g).0 e))
      | inr t ↦
          delete_other h k c (drop_goal d g) (λ q. u.0 c (subst (λ x. In (x, c) d) q t))
            ((drop_goal_iff d g k c u.1).1 (t, m))
    ],
  )
  | inr e ↦ rw e (
    λ i. elim (In-cons i) [
      | inl s ↦ (rw s here, λ q. differ (sym (ap (λ p. (p.1).goal_id) s) ∙ q) e)
      | inr t ↦ let (at, m) = (drop_goal_iff d g k c u.1).0 t in (there at, m)
    ],
    λ (i, m). elim (In-cons i) [
      | inl s ↦ rw s here
      | inr t ↦ there ((drop_goal_iff d g k c u.1).1 (t, m))
    ],
  )
]
  where
    differ : w.goal_id ≡ g → (w.goal_id == g) ≡ false → ⊥
    differ q e = ground (arith, eq_iff w.goal_id g)

-- After `releaseClaimsForGoal` exactly those claims are left that are not on the goal, in a state whose
-- claims stand under different sessions.
pub release_claims_for_goal_iff :
    (s : State) (goal_id k : String) (c : SessionClaim)
    → Keyed s.session_claims
    → In (k, c) (release_claims_for_goal s goal_id).session_claims
      ↔ (In (k, c) s.session_claims × (c.goal_id ≢ goal_id))
unfolding release_claims_for_goal
release_claims_for_goal_iff s goal_id k c u = drop_goal_iff s.session_claims goal_id k c u
