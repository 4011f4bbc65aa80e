-- ===== src/Lifecycle/Frame.antt =====
-- How the invariant passes through the writes and the shared helpers of the commands.
use ycm_harness.Common.{
  ◌≡◌, refl, inl, inr, String, Option, none, some, arith, eq_iff, ◌==◌, lookup, assign,
  lookup-assign, lookup-In, In-assign, In-assign_fresh, Host, Option-cases, Bool-cases, Dict,
  Outcome, returns, Ends, Ends-at, Ends-bind, Ends-some, Ends-then,
}
use ycm_harness.Schema.Lean.{
  State, Goal, Ticket, TicketStatus, EvidencePointer, done, local, TicketBackend,
}
use ycm_harness.Tickets.Machine.{Error, Machine}
use ycm_harness.Tickets.Provider.{provider_for_state, provider_get, provider_set_status}
use ycm_harness.Tickets.Shared.{
  put_ticket, put_goal, ensure_ticket, save_ticket, mark_if_remote, merged, activated,
}
use ycm_harness.Tickets.Provider.StatusChange.{StatusSet, set_status_local_iff}
use ycm_harness.Tickets.Commands.{put_evidence}
use ycm_harness.Lifecycle.{Origin, Proven, AllLocal, Sound}

pub Sound-put_goal :
    (s : State) (id : String) (g : Goal) → g.backend ≡ local → Sound s → Sound (put_goal s id g)
Sound-put_goal s id g h w = record {
  locals = λ x i. elim (In-assign id g s.goals i) [ inl e ↦ rw e h | inr j ↦ w.locals x j ];
  traced = w.traced;
  backed = w.backed;
}

pub Sound-put_ticket :
    (s : State) (id : String) (t : Ticket)
    → t.id ≡ id
    → (t.status ≡ done → Proven s.evidence t)
    → Sound s
    → Sound (put_ticket s id t)
Sound-put_ticket s id t same p w = record {
  locals = w.locals;
  traced = w.traced;
  backed = λ j u h. elim (Bool-cases (id == j)) [
    | inl e ↦
        let k : t ≡ u = some_inj (rw (lookup-assign id j t s.local_tickets, e) at h) in
        let q : id ≡ j = (eq_iff id j).0 e in rw (← k, ← q) (same, p)
    | inr e ↦ w.backed j u (rw (lookup-assign id j t s.local_tickets, e) at h)
  ];
}
  where
    some_inj : {a b : Ticket} → some a ≡ some b → a ≡ b
    some_inj h = ground arith

pub Origin-put :
    (evidence : Dict EvidencePointer) (k : String) (e : EvidencePointer)
    → lookup k evidence ≡ none
    → (id digest : String) → Origin evidence id digest
    → Origin (assign k e evidence) id digest
Origin-put evidence k e h id digest (o, i, a, b, c) = (o, In-assign_fresh k e evidence h i, a, b, c)

pub Sound-put_evidence :
    (s : State) (e : EvidencePointer)
    → lookup e.id s.evidence ≡ none
    → ((id digest : String)
        → e.ticket_id ≡ some id
        → e.submission_digest ≡ some digest
        → Origin (assign e.id e s.evidence) id digest)
    → Sound s
    → Sound (put_evidence s e)
Sound-put_evidence s e fresh origin w = record {
  locals = w.locals;
  traced = λ x i id digest a b. elim (In-assign e.id e s.evidence i) [
    | inl same ↦ origin id digest (rw same at a) (rw same at b)
    | inr j ↦ Origin-put s.evidence e.id e fresh id digest (w.traced x j id digest a b)
  ];
  backed = λ id t h.
      let (same, p) = w.backed id t h in
      (
        same,
        λ d.
            let (digest, (v, i, q), o) = p d in
            (
              digest,
              (v, In-assign_fresh e.id e s.evidence fresh i, q),
              Origin-put s.evidence e.id e fresh t.id digest o,
            ),
      );
}

-- The provider of a goal is local.
pub provider_local :
    (s : State) (id : String) (b : TicketBackend)
    → AllLocal s.goals
    → provider_for_state s id ≡ returns b
    → b ≡ local
unfolding provider_for_state
provider_local s id b w h = elim (Option-cases (lookup id s.goals)) [
  | inl e ↦ cc (rw (provider_for_state, e) at h)
  | inr (g, e) ↦
      let found : returns g.backend ≡ returns b = rw (provider_for_state, e) at h in
      let same : g.backend ≡ b = ground arith in rw (← same) (w g (lookup-In id s.goals g e))
]

abbrev pub Fetched : State → String → State × Ticket → Type 0
Fetched s id (s', t) = (s' ≡ s) × (lookup id s.local_tickets ≡ some t)

Proven-id :
    (evidence : Dict EvidencePointer) (t u : Ticket)
    → t.id ≡ u.id
    → Proven evidence t
    → Proven evidence u
Proven-id evidence t u h (digest, (e, i, (a, b, c, r)), o) =
    (digest, (e, i, (rw (← h) a, b, c, r)), rw (← h) o)

module _ (host : Host) (m : Machine) where
  get_absent :
      (s : State) (b : TicketBackend) (id : String) (a : Option Ticket) (t : Ticket)
      → b ≡ local
      → lookup id s.local_tickets ≡ none
      → provider_get host m b s id ≡ returns a
      → a ≡ some t
      → ⊥
  unfolding provider_get
  get_absent s b id a t l e h q = no (rw (l, e, q) at h)
    where
      no : ◌≡◌ {A = Outcome Error (Option Ticket)} (returns none) (returns (some t)) → ⊥
      no r = ground arith

  -- `ensureTicket` reads the stored ticket.
  pub ensure_ticket_local :
      (s : State) (id : String) → AllLocal s.goals → Ends (Fetched s id) (ensure_ticket host m s id)
  unfolding ensure_ticket
  ensure_ticket_local s id w = elim (Option-cases (lookup id s.local_tickets)) [
    | inl e ↦
        rw (ensure_ticket, e)
          (Ends-some _ (λ (goal : Goal) _. Ends-bind (λ b hb. Ends-bind (λ a ha.
            Ends-some _
              (λ t ht. absurd (get_absent s b id a t (provider_local s goal.id b w hb) e ha ht))))))
    | inr (t, e) ↦ rw (ensure_ticket, e) (Ends-at (refl, e))
  ]

  pub mark_local :
      (b : TicketBackend) (s : State) (id now : String) → b ≡ local → mark_if_remote b s id now ≡ s
  mark_local b s id now h = rw h refl

  pub provider_set_status_local :
      (s : State) (b : TicketBackend) (id now : String) (status : TicketStatus) (r : State × Ticket)
      → b ≡ local
      → provider_set_status host m b s id status now ≡ returns r
      → StatusSet s id status now r
  unfolding provider_set_status
  provider_set_status_local s b id now status r l h =
      (set_status_local_iff s id status now r).0 (rw (provider_set_status, l) at h)

  -- A ticket that the provider has set, with the fields of a ticket with the same identifier.
  pub StatusSet-Sound :
      (s s1 : State) (id now : String) (status : TicketStatus) (st : TicketStatus) (u : Ticket)
      (at : String) (t : Ticket)
      → Sound s
      → StatusSet s id status now (s1, u)
      → t.id ≡ id
      → st ≡ status
      → (status ≡ done → Proven s.evidence t)
      → Sound (put_ticket s1 id (merged u t st at))
  StatusSet-Sound s s1 id now status st u at t w (cur, look, _, hu, hs) same es proof = rw hs (
      Sound-put_ticket (put_ticket s id u) id (merged u t st at) same (λ d. proof (rw (← es) d))
        (Sound-put_ticket s id u (rw hu (w.backed id cur look).0)
          (λ d.
            Proven-id s.evidence t u (rw (same, hu, (w.backed id cur look).0) refl)
              (proof (rw (← status_of cur u hu) d)))
          w))
    where
      status_of :
          (cur u : Ticket)
          → u ≡ record cur { status = status; updated_at = now }
          → u.status ≡ status
      status_of cur u h = rw h refl

  -- `saveTicket` keeps the invariant, if the ticket that it makes done has its proof.
  pub save_ticket-Sound :
      (s : State) (id now : String) (status : TicketStatus)
      → Sound s
      → ((t : Ticket) → lookup id s.local_tickets ≡ some t → status ≡ done → Proven s.evidence t)
      → Ends Sound (save_ticket host m s id status now)
  unfolding save_ticket
  save_ticket-Sound s id now status w proof = Ends-some _ (λ ticket ht. Ends-some _ (λ goal hg.
      Ends-then (λ hu. Ends-bind (λ b hb. Ends-bind (λ (s1, u) h1. Ends-some _ (λ g hg'.
        Ends-at
          (finish ticket ht b (provider_local s ticket.goal_id b w.locals hb) s1 u h1 g hg')))))))
    where
      finish :
          (t : Ticket)
          → lookup id s.local_tickets ≡ some t
          → (b : TicketBackend) → b ≡ local
          → (s1 : State) (u : Ticket)
          → provider_set_status host m b s id status now ≡ returns (s1, u)
          → (g : Goal) → lookup t.goal_id (mark_if_remote b s1 t.goal_id now).goals ≡ some g
          → Sound (
              put_goal
                (put_ticket
                  (mark_if_remote b s1 t.goal_id now)
                  id
                  (merged u t u.status u.updated_at))
                t.goal_id
                (activated g status id now))
      finish t ht b l s1 u h1 g hg =
          let set = provider_set_status_local s b id now status (s1, u) l h1 in
          let kept : Sound (put_ticket s1 id (merged u t u.status u.updated_at)) =
            StatusSet-Sound s s1 id now status u.status u u.updated_at t w set (w.backed id t ht).0
              (rw (set.3) refl) (proof t ht) in
          let goals : Sound (
              put_ticket (mark_if_remote b s1 t.goal_id now) id
                (merged u t u.status u.updated_at)) =
            rw (mark_local b s1 t.goal_id now l) kept in
          Sound-put_goal _ t.goal_id (activated g status id now)
            (goals.locals g (lookup-In t.goal_id _ g hg)) goals
