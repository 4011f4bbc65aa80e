-- ===== src/Lifecycle/TicketCommands.antt =====
-- The commands of src/cli/commands/ticket.ts against the invariant.
use ycm_harness.Common.{
  ◌≡◌, refl, inl, inr, String, Option, none, some, arith, ◌==◌, lookup, values, lookup-In, In,
  In-assign_self, Host, Bool-cases, truthy, returns, Ends, Ends-at, Ends-bind, Ends-some,
  Ends-require, some_or_found, if◌then◌else◌,
}
use ycm_harness.Schema.Lean.{
  State, Goal, Ticket, TicketStatus, EvidencePointer, in_progress, in_review, done, local,
  TicketBackend,
}
use ycm_harness.Tickets.Machine.{Machine, World, TicketCreateInput}
use ycm_harness.Tickets.Evidence.{completion_evidence}
use ycm_harness.Tickets.Evidence.Fresh.{fresh_completion_evidence_current}
use ycm_harness.Tickets.Evidence.Newest.{completion_evidence-some}
use ycm_harness.Tickets.Provider.{provider_create, create_local}
use ycm_harness.Tickets.Provider.StatusChange.{StatusSet}
use ycm_harness.Tickets.Shared.{
  put_ticket, goal_for, ensure_ticket, active_lean_goal, save_ticket, merged,
}
use ycm_harness.Tickets.Commands.{
  ticket_create, ticket_start, ticket_block, ticket_submit, ticket_complete, put_evidence,
  submission_pointer,
}
use ycm_harness.Lifecycle.{Proven, Sound}
use ycm_harness.Lifecycle.Frame.{
  Sound-put_goal, Sound-put_ticket, Sound-put_evidence, ensure_ticket_local, save_ticket-Sound,
  provider_local, provider_set_status_local, StatusSet-Sound, mark_local,
}

abbrev pub Good : World → Type 0
Good w = Sound w.state

pub Sound-stamp : (s : State) (now : String) → Sound s → Sound (record s { updated_at = now })
Sound-stamp s now w = record { locals = w.locals; traced = w.traced; backed = w.backed }

-- The active goal, and the goal that a command names, are stored.
pub active_stored : (s : State) (g : Goal) → active_lean_goal s ≡ some g → In g (values s.goals)
unfolding active_lean_goal
active_stored s g h = go s.active_goal_id h
  where
    go :
        (o : Option String)
        → (elim o [ none ↦ none | some id ↦ if id == "" then none else lookup id s.goals ]) ≡ some g
        → In g (values s.goals)
    go none q = cc
    go (some id) q = elim (Bool-cases (id == "")) [
      | inl e ↦ absurd (no (rw e at q))
      | inr e ↦ lookup-In id s.goals g (rw e at q)
    ]
      where
        no : ◌≡◌ {A = Option Goal} none (some g) → ⊥
        no q = cc

pub goal_for_stored :
    (s : State) (id : Option String) (g : Goal) → goal_for s id ≡ returns g → In g (values s.goals)
unfolding goal_for
goal_for_stored s none g h = active_stored s g (some_or_found (active_lean_goal s) _ h)
goal_for_stored s (some k) g h = elim (Bool-cases (truthy (some k))) [
  | inl e ↦ lookup-In k s.goals g (some_or_found (lookup k s.goals) _ (rw (goal_for, e) at h))
  | inr e ↦ active_stored s g (some_or_found (active_lean_goal s) _ (rw (goal_for, e) at h))
]

module _ (host : Host) (m : Machine) (w : World) (now : String) where
  pub ensured :
      (id : String) (r : State × Ticket)
      → Good w
      → ensure_ticket host m w.state id ≡ returns r
      → Sound (r.0) × (lookup id (r.0).local_tickets ≡ some (r.1))
  ensured id r k h =
      let (same, look) = (ensure_ticket_local host m w.state id k.locals).holds r h in
      rw same (k, look)

  pub unchanged :
      (id : String) (r : State × Ticket) (evidence_id : String)
      → Good w
      → ensure_ticket host m w.state id ≡ returns r
      → lookup evidence_id w.state.evidence ≡ none
      → lookup evidence_id (r.0).evidence ≡ none
  unchanged id r evidence_id k h fresh =
      let (same, _) = (ensure_ticket_local host m w.state id k.locals).holds r h in rw same fresh

  saved :
      (s s' : State) (id : String) (status : TicketStatus)
      → Sound s
      → save_ticket host m s id status now ≡ returns s'
      → ((t : Ticket) → lookup id s.local_tickets ≡ some t → status ≡ done → Proven s.evidence t)
      → Sound (record s' { updated_at = now })
  saved s s' id status k h proof =
      Sound-stamp s' now ((save_ticket-Sound host m s id now status k proof).holds s' h)

  pub ticket_start-Sound : (id : String) → Good w → Ends Good (ticket_start host m w id now)
  unfolding ticket_start
  ticket_start-Sound id k = Ends-bind (λ (s1, t) h. Ends-some _ (λ g hg. Ends-require _ (λ _.
      Ends-bind (λ s2 h2.
        Ends-at (saved s1 s2 id in_progress (ensured id (s1, t) k h).0 h2 (λ u hu d. cc))))))

  pub ticket_block-Sound : (id : String) → Good w → Ends Good (ticket_block host m w id now)
  unfolding ticket_block
  ticket_block-Sound id k = Ends-bind (λ (s1, t) h. Ends-bind (λ s2 h2.
      Ends-at (saved s1 s2 id TicketStatus.blocked (ensured id (s1, t) k h).0 h2 (λ u hu d. cc))))

  -- Completion evidence on record proves the ticket.
  vouched-Proven :
      (s : State) (t : Ticket) (e : EvidencePointer)
      → Sound s
      → completion_evidence host s t ≡ some e
      → Proven s.evidence t
  vouched-Proven s t e k h =
      let (sub, digest, _, (a, b, _), i, v, _) = completion_evidence-some host s t e h in
      (digest, (e, i, v), k.traced e i t.id digest (v.0) (v.2))

  pub ticket_complete-Sound : (id : String) → Good w → Ends Good (ticket_complete host m w id now)
  unfolding ticket_complete
  ticket_complete-Sound id k = Ends-bind (λ (s1, t) h. Ends-some _ (λ g hg. Ends-bind (λ o ho.
      Ends-some _ (λ e he. Ends-require _ (λ _. Ends-bind (λ s2 h2. Ends-at (
        let (k1, look) = ensured id (s1, t) k h in
        let (found, _) = fresh_completion_evidence_current host m _ s1 t o e ho he in
        saved s1 s2 id done k1 h2
          (λ u hu d. proven_of id (s1) t u look hu (vouched-Proven s1 t e k1 found)))))))))
    where
      proven_of :
          (id : String) (s : State) (t u : Ticket)
          → lookup id s.local_tickets ≡ some t
          → lookup id s.local_tickets ≡ some u
          → Proven s.evidence t
          → Proven s.evidence u
      proven_of id s t u a b p = let same : t ≡ u = ground (arith, a, b) in rw (← same) p

  create_local_lem :
      (s : State) (b : TicketBackend) (goal_id id : String) (input : TicketCreateInput)
      (r : State × Ticket)
      → b ≡ local
      → Sound s
      → provider_create host m b s goal_id input id now ≡ returns r
      → Sound (put_ticket (r.0) (r.1).id (r.1))
  unfolding provider_create create_local
  create_local_lem s b goal_id id input r l k h =
      let q : returns (create_local host s goal_id input id now) ≡ returns r =
        rw (provider_create, l) at h in
      (Ends-at {P = λ p. Sound (put_ticket (p.0) (p.1).id (p.1))} (
          Sound-put_ticket (create_local host s goal_id input id now).0 id
            (create_local host s goal_id input id now).1 refl (λ d. cc)
            (Sound-put_ticket s id (create_local host s goal_id input id now).1 refl (λ d. cc)
              k))).holds
        r q

  pub ticket_create-Sound :
      (input : TicketCreateInput) (goal_id : Option String) (id : String)
      → Good w
      → Ends Good (ticket_create host m w input goal_id id now)
  unfolding ticket_create
  ticket_create-Sound input goal_id id k = Ends-bind (λ goal hg. Ends-bind (λ b hb.
      Ends-bind (λ (s1, t) h. Ends-at (
        Sound-stamp _ now (
          Sound-put_goal _ goal.id _ (k.locals goal (goal_for_stored w.state goal_id goal hg)) (
            create_local_lem w.state b goal.id id input (s1, t)
              (provider_local w.state goal.id b k.locals hb) k h))))))

  -- What `ticket submit` has stored.
  submitted_lem :
      (s s1 s2 : State) (id evidence_id digest : String) (t u : Ticket) (comment : Option String)
      → Sound s
      → lookup evidence_id s.evidence ≡ none
      → StatusSet s id in_review now (s1, u)
      → t.id ≡ id
      → s2 ≡ s1
      → Sound (
          put_ticket
            (put_evidence s2 (record (submission_pointer evidence_id t digest comment now) {
              ticket_id = some id;
            }))
            id
            (merged u t in_review u.updated_at))
  unfolding lookup
  submitted_lem s s1 s2 id evidence_id digest t u comment k fresh set same e = rw e (
      Sound-put_evidence (put_ticket s1 id (merged u t in_review u.updated_at))
        (record (submission_pointer evidence_id t digest comment now) { ticket_id = some id })
        (rw (set.4) fresh)
        (λ i d a b. (
          record (submission_pointer evidence_id t digest comment now) { ticket_id = some id },
          In-assign_self evidence_id _ s1.evidence,
          a,
          b,
          refl,
        ))
        (StatusSet-Sound host m s s1 id now in_review in_review u u.updated_at t k set same refl
          (λ d. cc)))

  pub ticket_submit-Sound :
      (id evidence_id : String)
      → lookup evidence_id w.state.evidence ≡ none
      → Good w
      → Ends Good (ticket_submit host m w id evidence_id now)
  unfolding ticket_submit
  ticket_submit-Sound id evidence_id fresh k = Ends-bind (λ (s1, t) h. Ends-some _ (λ goal hg.
      Ends-bind (λ digest hd. Ends-bind (λ b hb. Ends-bind (λ comment hc. Ends-bind (λ (s2, u) h2.
        Ends-at (
          let (k1, look) = ensured id (s1, t) k h in
          let l = provider_local s1 t.goal_id b k1.locals hb in
          Sound-stamp _ now (
            submitted_lem s1 s2 _ id evidence_id digest t u comment k1
              (unchanged id (s1, t) evidence_id k h fresh)
              (provider_set_status_local host m s1 b id now in_review (s2, u) l h2)
              (k1.backed id t look).0 (mark_local host m b s2 t.goal_id now l)))))))))
