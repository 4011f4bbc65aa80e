-- ===== src/Lifecycle/GoalCompletion.antt =====
-- `goal complete` of src/cli/commands/goal.ts: what it checks, and the invariant.
use ycm_harness.Common.{
  ◌≡◌, ◌≢◌, refl, subst, ◌⊎◌, inl, inr, String, true, false, Option, none, some, arith, eq_iff,
  List, [], ◌∷◌, lookup, values, lookup-In, lookup-assign_self, In, All, all_iff, All-In, Host,
  Bool-cases, is_some, returns, ◌>>=◌, Ends, Ends-at, Ends-bind, Ends-some, Ends-require, Ends-then,
  bind_found, require, if◌then◌else◌,
}
use ycm_harness.Schema.Lean.{
  State, Goal, GoalStatus, Ticket, TicketStatus, EvidencePointer, done, cancelled, local,
  TicketBackend,
}
use ycm_harness.Tickets.Machine.{Machine, World, goal_completion, lacks_evidence}
use ycm_harness.Tickets.Evidence.{evidence_root, fresh_completion_evidence}
use ycm_harness.Tickets.Evidence.Fresh.{Fresh, fresh_completion_evidence_current}
use ycm_harness.Tickets.Provider.{is_done, provider_list, local_tickets}
use ycm_harness.Tickets.Provider.Choice.{is_done_iff, local_tickets_lem}
use ycm_harness.Tickets.Shared.{mark_if_remote}
use ycm_harness.Goals.{goal_complete, check_done, evidence_ticket, is_finished, closed, deselect}
use ycm_harness.Lifecycle.{AllLocal}
use ycm_harness.Lifecycle.Frame.{Sound-put_goal, provider_local, mark_local}
use ycm_harness.Lifecycle.TicketCommands.{Good, Sound-stamp}
use ycm_harness.Lifecycle.GoalCommands.{Sound-set_active}

-- The evidence that the ticket needs before its goal is done.
abbrev pub Evidenced : Host → Machine → String → State → Ticket → Type 0
Evidenced host m root s t =
    t.status ≡ done
    → (evidence_ticket host m s t).code_changed ≡ true
    → (e : EvidencePointer) × Fresh host m root s (evidence_ticket host m s t) e

abbrev Inspected : Host → Machine → String → State → List Ticket → State → Type 0
Inspected host m root s ts s' = (s' ≡ s) × All (Evidenced host m root s) ts

module _ (host : Host) (m : Machine) (target : Goal) (s : State) where
  found_lem :
      (t : Ticket)
      → (if (evidence_ticket host m s t).code_changed
          then (fresh_completion_evidence host m
                (evidence_root m target)
                s
                (evidence_ticket host m s t)
              >>= λ found. require (is_some found) (lacks_evidence t.id))
          else returns tt)
        ≡ returns tt
      → Evidenced host m (evidence_root m target) s t
  found_lem t h d c =
      let (e, f) = bind_found _ _ (rw c at h) in
      (
        e,
        fresh_completion_evidence_current host m (evidence_root m target) s
            (evidence_ticket host m s t) (some e) e f refl,
      )

  check_done_local :
      (ts : List Ticket)
      → Ends (Inspected host m (evidence_root m target) s ts) (check_done host m target local s ts)
  unfolding check_done
  check_done_local [] = Ends-at (refl, tt)
  check_done_local (t ∷ ts) = elim (Bool-cases (is_done t.status)) [
    | inl e ↦
        rw (check_done, e)
          (Ends-then (λ h. record {
            holds = λ s' q.
                let (same, rest) = (check_done_local ts).holds s' q in
                (same, (found_lem t h, rest));
          }))
    | inr e ↦
        rw (check_done, e)
          (record {
            holds = λ s' q.
                let (same, rest) = (check_done_local ts).holds s' q in
                (same, ((λ d c. absurd (no (rw (e) at (is_done_iff t.status).1 d))), rest));
          })
  ]
    where
      no : false ≡ true → ⊥
      no q = cc

-- What `goal complete` has checked of the goal in the state `s`, and what it leaves.
abbrev pub Closed : Host → Machine → State → String → World → Type 0
Closed host m s id w =
    (goal : Goal) × (lookup id s.goals ≡ some goal)
    × ((t : Ticket)
        → In t (values s.local_tickets)
        → t.goal_id ≡ id
        → ((t.status ≡ done) ⊎ (t.status ≡ cancelled))
          × Evidenced host m (evidence_root m goal) s t)
    × (m.closure_passes (evidence_root m goal) goal_completion ≡ true)
    × ((g : Goal) × (lookup id w.state.goals ≡ some g)
        × (g.status ≡ GoalStatus.done)
        × (g.stop_enforcement ≡ false))
    × (w.state.active_goal_id ≢ some id)

is_finished_lem : (s : TicketStatus) → is_finished s ≡ true → (s ≡ done) ⊎ (s ≡ cancelled)
is_finished_lem TicketStatus.todo h = cc
is_finished_lem TicketStatus.in_progress h = cc
is_finished_lem TicketStatus.in_review h = cc
is_finished_lem done h = inl refl
is_finished_lem TicketStatus.blocked h = cc
is_finished_lem cancelled h = inr refl

deselect_lem : (active : Option String) (id : String) → deselect active id ≢ some id
deselect_lem none id h = cc
deselect_lem (some a) id h = ground (arith, h, eq_iff a id)

module _ (host : Host) (m : Machine) (w : World) (now : String) where
  rows_lem :
      (b : TicketBackend) (id : String) (rows : List Ticket)
      → b ≡ local
      → provider_list host m b w.state id ≡ returns rows
      → local_tickets host w.state id ≡ rows
  unfolding provider_list
  rows_lem b id rows l h =
      let q : returns (local_tickets host w.state id) ≡ returns rows = rw (provider_list, l) at h in
      ground arith

  inspected :
      (goal : Goal) (b : TicketBackend) (s1 s2 : State) (rows : List Ticket)
      → b ≡ local
      → s1 ≡ w.state
      → check_done host m goal b s1 rows ≡ returns s2
      → Inspected host m (evidence_root m goal) w.state rows s2
  inspected goal b s1 s2 rows l e h =
      (check_done_local host m goal w.state rows).holds s2 (rw (l, e) at h)

  pub goal_complete_checks :
      (id : String)
      → AllLocal w.state.goals
      → Ends (Closed host m w.state id) (goal_complete host m w id now)
  unfolding goal_complete
  goal_complete_checks id k = Ends-some _ (λ goal hg. Ends-bind (λ b hb. Ends-bind (λ rows hr.
      Ends-require _ (λ fin. Ends-bind (λ s2 h2. Ends-require _ (λ cl. Ends-at (
        let l = provider_local w.state id b k hb in
        let (_, each) =
          inspected goal b (mark_if_remote b w.state id now) s2 rows l
            (mark_local host m b w.state id now l) h2 in
        (
          goal,
          hg,
          (λ t i g.
              let row =
                subst (In t) (rows_lem b id rows l hr)
                  ((local_tickets_lem host w.state id t).1 (i, g)) in
              (
                is_finished_lem t.status
                    (All-In _ ((all_iff (λ t. is_finished t.status) rows).0 fin) row),
                All-In (Evidenced host m (evidence_root m goal) w.state) each row,
              )),
          cl,
          (closed goal GoalStatus.done now, lookup-assign_self id _ s2.goals, refl, refl),
          deselect_lem s2.active_goal_id id,
        ))))))))

  pub goal_complete-Sound : (id : String) → Good w → Ends Good (goal_complete host m w id now)
  unfolding goal_complete
  goal_complete-Sound id k = Ends-some _ (λ goal hg. Ends-bind (λ b hb. Ends-bind (λ rows hr.
      Ends-require _ (λ fin. Ends-bind (λ s2 h2. Ends-require _ (λ cl. Ends-at (
        let l = provider_local w.state id b k.locals hb in
        let (same, _) =
          inspected goal b (mark_if_remote b w.state id now) s2 rows l
            (mark_local host m b w.state id now l) h2 in
        Sound-stamp _ now (
          Sound-set_active _ _ (
            Sound-put_goal s2 id _ (k.locals goal (lookup-In id w.state.goals goal hg))
              (rw same k))))))))))

  -- If `goal complete` returns and every goal is local, then every stored ticket of the goal is done or
  -- cancelled, each done one that changed code has completion evidence whose digest is that of the tree
  -- now, the closure gate passed, and afterwards the goal is done, does not enforce, and is not active.
  pub goal_complete-Closed :
      (id : String) (w' : World)
      → AllLocal w.state.goals
      → goal_complete host m w id now ≡ returns w'
      → Closed host m w.state id w'
  goal_complete-Closed id w' k h = (goal_complete_checks id k).holds w' h
