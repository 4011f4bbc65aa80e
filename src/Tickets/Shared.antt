-- ===== src/Tickets/Shared.antt =====
-- The helpers that the commands of src/cli/commands share: goals and tickets by identifier, and the
-- saving of a ticket.
use ycm_harness.Common.{
  String, Option, none, some, ◌==◌, Host, if◌then◌else◌, truthy, lookup, assign, or_else, Outcome,
  returns, ◌>>=◌, ◌>>◌, require, some_or,
}
use ycm_harness.Schema.Lean.{State, Goal, Ticket, TicketStatus, TicketBackend}
use ycm_harness.Tickets.Machine.{
  Error, no_active_goal, unknown_ticket, unknown_goal, closure_failed, Event, EventKind, Machine,
  Surface, ticket_completion,
}
use ycm_harness.Tickets.Evidence.{evidence_root}
use ycm_harness.Tickets.Provider.{
  mark_tracker_live, is_live_remote_backend, is_done, is_in_progress, provider_for_state,
  provider_get, provider_set_status,
}

-- `activeLeanGoal(state)` of src/cli/lean-state.ts.
unfoldable pub active_lean_goal : State → Option Goal
active_lean_goal state = elim state.active_goal_id [
  | none ↦ none
  | some id ↦ if id == "" then none else lookup id state.goals
]

-- `goalFor(state, id)`.
unfoldable pub goal_for : State → Option String → Outcome Error Goal
unfolding active_lean_goal
goal_for state id =
    some_or
      (if truthy id
        then (elim id [ none ↦ none | some k ↦ lookup k state.goals ])
        else active_lean_goal state)
      no_active_goal

abbrev pub ticket_event : EventKind → Option String → String → String → Event
ticket_event kind goal_id ticket_id now = record {
  kind = kind;
  at = now;
  goal_id = goal_id;
  ticket_id = some ticket_id;
  checkpoint_id = none;
}

abbrev pub mark_if_remote : TicketBackend → State → String → String → State
mark_if_remote backend state goal_id now =
    if is_live_remote_backend backend then mark_tracker_live state goal_id now else state

abbrev pub put_ticket : State → String → Ticket → State
put_ticket state id t = record state { local_tickets = assign id t state.local_tickets }

abbrev pub put_goal : State → String → Goal → State
put_goal state id g = record state { goals = assign id g state.goals }

-- `{ ...updated, ...ticket, status, updated_at }`: the fields that `ticket` has win.
abbrev pub merged : Ticket → Ticket → TicketStatus → String → Ticket
merged updated ticket status updated_at = record ticket {
  brief = or_else ticket.brief updated.brief;
  status = status;
  updated_at = updated_at;
}

abbrev pub activated : Goal → TicketStatus → String → String → Goal
activated goal status id now = record goal {
  active_ticket_id = if is_in_progress status then some id else goal.active_ticket_id;
  updated_at = now;
}

module _ (host : Host) (m : Machine) where
  -- `ensureTicket(ctx, state, id)`.
  unfoldable pub ensure_ticket : State → String → Outcome Error (State × Ticket)
  ensure_ticket state id = elim (lookup id state.local_tickets) [
    | some local ↦ returns (state, local)
    | none ↦ do
      goal ← some_or (active_lean_goal state) no_active_goal
      backend ← provider_for_state state goal.id
      answer ← provider_get host m backend state id
      fetched ← some_or answer (unknown_ticket id)
      let ticket : Ticket = record fetched { goal_id = goal.id }
      returns (put_ticket state id ticket, ticket)
  ]

  -- `requireContinuationClosure({ root, surface })`.
  abbrev pub require_closure : Goal → Surface → Outcome Error (Unit {0})
  require_closure goal surface =
      require (m.closure_passes (evidence_root m goal) surface) closure_failed

  -- `saveTicket(ctx, state, ticketId, status)`, up to the state that it writes.
  unfoldable pub save_ticket : State → String → TicketStatus → String → Outcome Error State
  save_ticket state id status now = do
    ticket ← some_or (lookup id state.local_tickets) (unknown_ticket id)
    goal ← some_or (lookup ticket.goal_id state.goals) (unknown_goal ticket.goal_id)
    (if is_done status then require_closure goal ticket_completion else returns tt)
    backend ← provider_for_state state ticket.goal_id
    (s1, updated) ← provider_set_status host m backend state id status now
    let s2 : State = mark_if_remote backend s1 ticket.goal_id now
    let s3 : State = put_ticket s2 id (merged updated ticket updated.status updated.updated_at)
    goal' ← some_or (lookup ticket.goal_id s3.goals) (unknown_goal ticket.goal_id)
    returns (put_goal s3 ticket.goal_id (activated goal' status id now))
