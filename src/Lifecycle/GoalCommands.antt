-- ===== src/Lifecycle/GoalCommands.antt =====
-- The commands of src/cli/commands/goal.ts, but `goal complete`, against the invariant.
use ycm_harness.Common.{
  ◌≡◌, refl, inl, inr, String, Option, none, some, arith, lookup, values, lookup-In, In, Host,
  Bool-cases, truthy, Outcome, returns, Ends, Ends-at, Ends-bind, Ends-some, Ends-require,
  if◌then◌else◌,
}
use ycm_harness.Schema.Lean.{State, Goal, Assurance, local, TicketBackend}
use ycm_harness.Tickets.Machine.{Error, Machine, World}
use ycm_harness.Tickets.Provider.{is_local, mark_tracker_live}
use ycm_harness.Tickets.Shared.{put_goal, active_lean_goal}
use ycm_harness.Goals.{
  goal_activate, goal_block, goal_verify, goal_abandon, goal_enforce, goal_worktree_init,
  AddWorktreeResult, CreateOptions, goal_create, backend_of, set_active, new_goal,
}
use ycm_harness.Lifecycle.{Sound}
use ycm_harness.Lifecycle.Frame.{Sound-put_goal}
use ycm_harness.Lifecycle.TicketCommands.{Good, Sound-stamp, active_stored}

pub Sound-set_active : (s : State) (id : Option String) → Sound s → Sound (set_active s id)
Sound-set_active s id w = record { locals = w.locals; traced = w.traced; backed = w.backed }

-- A stored goal is written back with the same backend.
rewritten :
    (s : State) (k id : String) (g g' : Goal)
    → Sound s
    → lookup k s.goals ≡ some g
    → g'.backend ≡ g.backend
    → Sound (put_goal s id g')
rewritten s k id g g' w h e = Sound-put_goal s id g' (rw e (w.locals g (lookup-In k s.goals g h))) w

module _ (w : World) (now : String) where
  pub goal_activate-Sound : (id : String) → Good w → Ends Good (goal_activate w id now)
  unfolding goal_activate
  goal_activate-Sound id k = Ends-some _ (λ g h. Ends-at (
      Sound-stamp _ now (
        rewritten (set_active w.state (some id)) id id g _ (Sound-set_active w.state (some id) k) h
          refl)))

  pub goal_block-Sound : (id : String) → Good w → Ends Good (goal_block w id now)
  unfolding goal_block
  goal_block-Sound id k =
      Ends-some _ (λ g h. Ends-at (Sound-stamp _ now (rewritten w.state id id g _ k h refl)))

  pub goal_verify-Sound : (id : String) → Good w → Ends Good (goal_verify w id now)
  unfolding goal_verify
  goal_verify-Sound id k =
      Ends-some _ (λ g h. Ends-at (Sound-stamp _ now (rewritten w.state id id g _ k h refl)))

  pub goal_abandon-Sound : (id : String) → Good w → Ends Good (goal_abandon w id now)
  unfolding goal_abandon
  goal_abandon-Sound id k = Ends-some _ (λ g h.
      Ends-at (Sound-stamp _ now (Sound-set_active _ _ (rewritten w.state id id g _ k h refl))))

  pub goal_enforce-Sound : (mode : String) → Good w → Ends Good (goal_enforce w mode now)
  unfolding goal_enforce
  goal_enforce-Sound mode k = Ends-some _ (λ g h. Ends-require _ (λ _. Ends-require _ (λ _.
      Ends-at (
        Sound-stamp _ now
          (Sound-put_goal w.state g.id _ (k.locals g (active_stored w.state g h)) k)))))

  named_stored :
      (id : Option String) (g : Goal)
      → (if truthy id
          then (elim id [ none ↦ none | some k ↦ lookup k w.state.goals ])
          else active_lean_goal w.state)
        ≡ some g
      → In g (values w.state.goals)
  named_stored none g h = active_stored w.state g h
  named_stored (some k) g h = elim (Bool-cases (truthy (some k))) [
    | inl e ↦ lookup-In k w.state.goals g (rw e at h)
    | inr e ↦ active_stored w.state g (rw e at h)
  ]

  pub goal_worktree_init-Sound :
      (id : Option String) (answer : Option AddWorktreeResult)
      → Good w
      → Ends Good (goal_worktree_init w id answer now)
  unfolding goal_worktree_init
  goal_worktree_init-Sound id answer k = Ends-some _ (λ g h. Ends-some _ (λ r _.
      Ends-at
        (Sound-stamp _ now (Sound-put_goal w.state g.id _ (k.locals g (named_stored id g h)) k))))

  pub goal_create-Sound :
      (host : Host) (m : Machine) (id title : String) (opts : CreateOptions)
      → backend_of opts ≡ returns local
      → Good w
      → Ends Good (goal_create host m w id title opts now)
  unfolding goal_create
  goal_create-Sound host m id title opts l k = Ends-require _ (λ _. Ends-bind (λ a _.
      Ends-bind (λ b hb. Ends-bind (λ rows _. Ends-at (Sound-stamp _ now (created a b hb))))))
    where
      is_local_of : (b : TicketBackend) → backend_of opts ≡ returns b → b ≡ local
      is_local_of b hb =
          let q : ◌≡◌ {A = Outcome Error TicketBackend} (returns b) (returns local) = rw hb at l in
          ground arith

      created :
          (a : Assurance) (b : TicketBackend)
          → backend_of opts ≡ returns b
          → Sound (
              if is_local b
              then set_active (put_goal w.state id (new_goal id title opts a b now)) (some id)
              else mark_tracker_live
                  (set_active (put_goal w.state id (new_goal id title opts a b now)) (some id))
                  id
                  now)
      created a b hb = rw (is_local_of b hb) (
          Sound-set_active _ (some id)
            (Sound-put_goal w.state id (new_goal id title opts a local now) refl k))
