-- ===== src/Tickets/Provider/StatusChange.antt =====
-- When `setStatus` of the local provider of src/tickets/provider.ts returns, and what.
use ycm_harness.Common.{
  ◌≡◌, refl, subst, ◌↔◌, inl, inr, String, Bool, false, not, ◌&&◌, none, some, arith, List, [], ◌∷◌,
  lookup, assign, any, all, Option-cases, Bool-cases, Outcome, returns, throws, if◌then◌else◌,
}
use ycm_harness.Schema.Lean.{State, Ticket, TicketStatus, done}
use ycm_harness.Tickets.Machine.{Error, blocked_by_dependency, unknown_ticket}
use ycm_harness.Tickets.Provider.{is_done, ticket_done, set_status_local}
use ycm_harness.Tickets.Provider.Choice.{is_done_iff, Unblocked, Unblocked-iff}

-- What `setStatus` of the local provider answers when it does not throw: the stored ticket with the
-- new status and time, in the state that stores it.
abbrev pub StatusSet : State → String → TicketStatus → String → State × Ticket → Type 0
StatusSet s id status now (s1, u) =
    (t : Ticket) × (lookup id s.local_tickets ≡ some t)
    × (status ≡ done → Unblocked s t)
    × (u ≡ record t { status = status; updated_at = now })
    × (s1 ≡ record s { local_tickets = assign id u s.local_tickets })

set_present :
    (s : State) (id : String) (status : TicketStatus) (now : String) (t : Ticket)
    → lookup id s.local_tickets ≡ some t
    → set_status_local s id status now ≡ (
        if is_done status && any (λ d. not (ticket_done s d)) t.blocked_by
        then throws (blocked_by_dependency id)
        else returns (
          record s {
            local_tickets =
                assign id (record t { status = status; updated_at = now }) s.local_tickets;
          },
          record t { status = status; updated_at = now },
        ))
unfolding set_status_local
set_present s id status now t e = rw (set_status_local, e) refl

not_stored :
    (s : State) (id : String) (status : TicketStatus) (now : String) (r : State × Ticket)
    → lookup id s.local_tickets ≡ none
    → set_status_local s id status now ≡ returns r
    → ⊥
unfolding set_status_local
not_stored s id status now r e h = no (rw (set_status_local, e) at h)
  where
    no : ◌≡◌ {A = Outcome Error (State × Ticket)} (throws (unknown_ticket id)) (returns r) → ⊥
    no h = cc

any-not {ℓ} : {A : Type ℓ} (p : A → Bool) (xs : List A) → (any (λ x. not (p x)) xs ≡ not (all p xs))
any-not p [] = refl
any-not p (x ∷ xs) = ground (arith, any-not p xs)

-- The dependency guard of `setStatus`.
guard_iff :
    (s : State) (status : TicketStatus) (t : Ticket)
    → (is_done status && any (λ d. not (ticket_done s d)) t.blocked_by ≡ false)
      ↔ (status ≡ done → Unblocked s t)
guard_iff s status t = (
  λ h d.
      (Unblocked-iff s t).0
        (ground (arith, any-not (ticket_done s) t.blocked_by, (is_done_iff status).1 d)),
  λ f. elim (Bool-cases (is_done status)) [
    | inl e ↦
        let u = (Unblocked-iff s t).1 (f ((is_done_iff status).0 e)) in
        ground (arith, any-not (ticket_done s) t.blocked_by)
    | inr e ↦ ground arith
  ],
)

-- The local provider's `setStatus` returns a state and a ticket exactly when the ticket is stored and
-- either the new status is not done or all its dependencies are stored and done; what it returns is
-- then the ticket with the new status and time, and the state in which it replaces the old one.
pub set_status_local_iff :
    (s : State) (id : String) (status : TicketStatus) (now : String) (r : State × Ticket)
    → (set_status_local s id status now ≡ returns r) ↔ StatusSet s id status now r
set_status_local_iff s id status now r = (
  λ h. elim (Option-cases (lookup id s.local_tickets)) [
    | inl e ↦ absurd (not_stored s id status now r e h)
    | inr (t, e) ↦
        elim (Bool-cases (is_done status && any (λ d. not (ticket_done s d)) t.blocked_by)) [
          | inl g ↦ absurd (thrown (rw (set_present s id status now t e, g) at h))
          | inr g ↦ stored t e g (rw (set_present s id status now t e, g) at h)
        ]
  ],
  λ (t, e, f, u, q).
      rw (set_present s id status now t e, (guard_iff s status t).1 f, ← u, ← q) refl,
)
  where
    thrown :
        ◌≡◌ {A = Outcome Error (State × Ticket)} (throws (blocked_by_dependency id)) (returns r) → ⊥
    thrown h = cc

    stored :
        (t : Ticket)
        → lookup id s.local_tickets ≡ some t
        → (is_done status && any (λ d. not (ticket_done s d)) t.blocked_by ≡ false)
        → ◌≡◌ {A = Outcome Error (State × Ticket)}
            (returns (
              record s {
                local_tickets =
                    assign id (record t { status = status; updated_at = now }) s.local_tickets;
              },
              record t { status = status; updated_at = now },
            ))
            (returns r)
        → StatusSet s id status now r
    stored t e g h =
        let q = returns_inj h in
        subst (StatusSet s id status now) q (t, e, (guard_iff s status t).0 g, refl, refl)
      where
        returns_inj :
            {a b : State × Ticket}
            → ◌≡◌ {A = Outcome Error (State × Ticket)} (returns a) (returns b)
            → a ≡ b
        returns_inj h = ground arith
