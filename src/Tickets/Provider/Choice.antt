-- ===== src/Tickets/Provider/Choice.antt =====
-- Which ticket `nextLocalTicket` of src/tickets/provider.ts chooses, and when the local provider lets
-- a ticket be done.
use ycm_harness.Common.{
  ◌≡◌, refl, ◌↔◌, ◌⊎◌, inl, inr, String, Bool, true, false, ◌&&◌, Option, none, some, arith, eq_iff,
  List, lookup, values, find, find-some, find-none, all, all_iff, All-In, All-of_In, In, In-filter,
  In-filter_of, In-sort, In-sort_of, Host, Option-cases, or_else, and-eq-true_iff,
}
use ycm_harness.Schema.Lean.{
  State, Ticket, TicketStatus, todo, in_progress, in_review, done, cancelled,
}
use ycm_harness.Tickets.Provider.{
  ticket_before, local_tickets, is_done, is_in_progress, is_todo, ticket_done, next_local_ticket,
}

pub is_done_iff : (s : TicketStatus) → (is_done s ≡ true) ↔ (s ≡ done)
is_done_iff todo = (λ h. cc, λ h. cc)
is_done_iff in_progress = (λ h. cc, λ h. cc)
is_done_iff in_review = (λ h. cc, λ h. cc)
is_done_iff done = (λ h. refl, λ h. refl)
is_done_iff TicketStatus.blocked = (λ h. cc, λ h. cc)
is_done_iff cancelled = (λ h. cc, λ h. cc)

is_in_progress_iff : (s : TicketStatus) → (is_in_progress s ≡ true) ↔ (s ≡ in_progress)
is_in_progress_iff todo = (λ h. cc, λ h. cc)
is_in_progress_iff in_progress = (λ h. refl, λ h. refl)
is_in_progress_iff in_review = (λ h. cc, λ h. cc)
is_in_progress_iff done = (λ h. cc, λ h. cc)
is_in_progress_iff TicketStatus.blocked = (λ h. cc, λ h. cc)
is_in_progress_iff cancelled = (λ h. cc, λ h. cc)

is_todo_iff : (s : TicketStatus) → (is_todo s ≡ true) ↔ (s ≡ todo)
is_todo_iff todo = (λ h. refl, λ h. refl)
is_todo_iff in_progress = (λ h. cc, λ h. cc)
is_todo_iff in_review = (λ h. cc, λ h. cc)
is_todo_iff done = (λ h. cc, λ h. cc)
is_todo_iff TicketStatus.blocked = (λ h. cc, λ h. cc)
is_todo_iff cancelled = (λ h. cc, λ h. cc)

-- The ticket is stored and done.
abbrev pub DoneAt : State → String → Type 0
DoneAt state id = (t : Ticket) × (lookup id state.local_tickets ≡ some t) × (t.status ≡ done)

pub ticket_done_iff :
    (state : State) (id : String) → (ticket_done state id ≡ true) ↔ DoneAt state id
ticket_done_iff state id = go (lookup id state.local_tickets)
  where
    go :
        (o : Option Ticket)
        → ((elim o [ none ↦ false | some t ↦ is_done t.status ]) ≡ true)
          ↔ ((t : Ticket) × (o ≡ some t) × (t.status ≡ done))
    go none = (λ h. cc, λ r. cc (r.1))
    go (some t) = (
      λ h. (t, refl, (is_done_iff _).0 h),
      λ (u, e, d). let same : t ≡ u = ground arith in rw (same) ((is_done_iff _).1 d),
    )

-- Every dependency of the ticket is done.
abbrev pub Unblocked : State → Ticket → Type 0
Unblocked state t = (d : String) → In d t.blocked_by → DoneAt state d

pub Unblocked-iff :
    (state : State) (t : Ticket) → (all (ticket_done state) t.blocked_by ≡ true) ↔ Unblocked state t
Unblocked-iff state t = (
  λ h d i. (ticket_done_iff state d).0 (All-In _ ((all_iff _ _).0 h) i),
  λ f. (all_iff _ _).1 (All-of_In _ _ (λ d i. (ticket_done_iff state d).1 (f d i))),
)

-- The ticket of the goal can be worked on next.
abbrev pub Started : State → String → Ticket → Type 0
Started state goal_id t =
    In t (values state.local_tickets) × (t.goal_id ≡ goal_id) × (t.status ≡ in_progress)

abbrev pub Ready : State → String → Ticket → Type 0
Ready state goal_id t =
    In t (values state.local_tickets)
    × (t.goal_id ≡ goal_id)
    × (t.status ≡ todo)
    × Unblocked state t

pub local_tickets_lem :
    (host : Host) (state : State) (goal_id : String) (t : Ticket)
    → In t (local_tickets host state goal_id)
      ↔ (In t (values state.local_tickets) × (t.goal_id ≡ goal_id))
unfolding local_tickets
local_tickets_lem host state goal_id t = (
  λ i. let (j, q) = In-filter _ _ (In-sort (ticket_before host) _ i) in (j, (eq_iff _ _).0 q),
  λ (i, q). In-sort_of (ticket_before host) _ (In-filter_of _ i ((eq_iff _ _).1 q)),
)

none_of_find {ℓ} :
    {A : Type ℓ} (p : A → Bool) (xs : List A) {x : A} → find p xs ≡ none → In x xs → p x ≡ true → ⊥
none_of_find p xs h i q = cc (find-none p xs h i)

or_else-some {ℓ} :
    {A : Type ℓ} (a b : Option A) {x : A}
    → or_else a b ≡ some x
    → (a ≡ some x) ⊎ ((a ≡ none) × (b ≡ some x))
or_else-some none b h = inr (refl, h)
or_else-some (some a) b h = inl h

or_else-none {ℓ} : {A : Type ℓ} (a b : Option A) → (or_else a b ≡ none) ↔ ((a ≡ none) × (b ≡ none))
or_else-none none b = (λ h. (refl, h), λ h. h.1)
or_else-none (some a) b = (λ h. cc, λ h. cc (h.0))

find-none_of {ℓ} :
    {A : Type ℓ} (p : A → Bool) (xs : List A)
    → ((x : A) → In x xs → p x ≡ true → ⊥)
    → find p xs ≡ none
find-none_of p xs f = elim (Option-cases (find p xs)) [
  | inl e ↦ e
  | inr (x, found) ↦ let (i, q) = find-some p xs x found in absurd (f x i q)
]

abbrev actionable : State → Ticket → Bool
actionable state t = is_todo t.status && all (ticket_done state) t.blocked_by

abbrev first_started : Host → State → String → Option Ticket
first_started host state goal_id =
    find (λ t. is_in_progress t.status) (local_tickets host state goal_id)

abbrev first_ready : Host → State → String → Option Ticket
first_ready host state goal_id = find (actionable state) (local_tickets host state goal_id)

module _ (host : Host) (state : State) (goal_id : String) where
  no-Started : first_started host state goal_id ≡ none → (t : Ticket) → Started state goal_id t → ⊥
  no-Started h t (i, g, s) =
      none_of_find _ _ h ((local_tickets_lem host state goal_id t).1 (i, g))
        ((is_in_progress_iff _).1 s)

  no-Ready : first_ready host state goal_id ≡ none → (t : Ticket) → Ready state goal_id t → ⊥
  no-Ready h t (i, g, s, u) =
      none_of_find _ _ h ((local_tickets_lem host state goal_id t).1 (i, g))
        ((and-eq-true_iff _ _).1 ((is_todo_iff _).1 s, (Unblocked-iff state t).1 u))

  -- The ticket that `nextLocalTicket` chooses is a stored ticket of the goal that is in progress,
  -- or, when the goal has no ticket in progress, one that is still to do and whose dependencies are
  -- all stored and done. For every state, goal and runtime.
  pub next_local_ticket_actionable :
      (t : Ticket)
      → next_local_ticket host state goal_id ≡ some t
      → Started state goal_id t
        ⊎ (((u : Ticket) → Started state goal_id u → ⊥) × Ready state goal_id t)
  unfolding next_local_ticket
  next_local_ticket_actionable t h =
      elim (or_else-some (first_started host state goal_id) (first_ready host state goal_id) h) [
        | inl found ↦
            let (i, s) = find-some _ _ t found in
            let (j, g) = (local_tickets_lem host state goal_id t).0 i in
            inl (j, g, (is_in_progress_iff _).0 s)
        | inr (e, found) ↦
            let (i, q) = find-some _ _ t found in
            let (j, g) = (local_tickets_lem host state goal_id t).0 i in
            let (s, u) = (and-eq-true_iff _ _).0 q in
            inr (no-Started e, (j, g, (is_todo_iff _).0 s, (Unblocked-iff state t).0 u))
      ]

  -- `nextLocalTicket` finds no ticket exactly when the goal has neither a ticket in progress nor a
  -- ticket to do whose dependencies are all stored and done. For every state, goal and runtime.
  pub next_local_ticket-none_iff :
      (next_local_ticket host state goal_id ≡ none)
      ↔ (((t : Ticket) → Started state goal_id t → ⊥) × ((t : Ticket) → Ready state goal_id t → ⊥))
  unfolding next_local_ticket
  next_local_ticket-none_iff = (
    λ h. let (a, b) = (or_else-none _ _).0 h in (no-Started a, no-Ready b),
    λ (f, g). (or_else-none _ _).1 (
      find-none_of _ _ (λ t i s.
          let (j, q) = (local_tickets_lem host state goal_id t).0 i in
          f t (j, q, (is_in_progress_iff _).0 s)),
      find-none_of (actionable state) _ (λ t i c.
          let (j, q) = (local_tickets_lem host state goal_id t).0 i in
          let (s, u) = (and-eq-true_iff _ _).0 c in
          g t (j, q, (is_todo_iff _).0 s, (Unblocked-iff state t).0 u)),
    ),
  )
