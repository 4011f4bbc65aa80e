-- ===== src/Tickets/Provider.antt =====
-- The local provider of src/tickets/provider.ts, and the choice of a provider. A remote provider is
-- known by its answers.
pub mod Choice
pub mod StatusChange
use ycm_harness.Common.{
  String, Bool, true, false, not, ◌&&◌, ◌||◌, Option, none, some, List, [], ◌==◌, Host, ltb, eqb,
  if◌then◌else◌, lookup, assign, values, any, all, find, filter, length, sort, or_else, Outcome,
  returns, throws, ◌>>=◌,
}
use ycm_harness.Schema.Lean.{
  State, Ticket, TicketStatus, todo, in_progress, done, TicketBackend, local, github, multica,
  Readback, TrackerCache, empty_tracker_cache,
}
use ycm_harness.Tickets.Machine.{
  Error, unknown_goal, unknown_ticket, blocked_by_dependency, Machine, TicketCreateInput,
}

abbrev seen_live : Readback → String → Readback
seen_live b at = record b {
  last_verified_at = some at;
  available = some true;
  stale = some false;
  outage = some false;
}

abbrev live_backend : TicketBackend → String → TicketBackend
live_backend local at = local
live_backend (github owner repo project_owner project parent cache) at =
    github owner repo project_owner project parent (seen_live cache at)
live_backend (multica origin workspace parent cache) at =
    multica origin workspace parent (seen_live cache at)

abbrev pub is_local : TicketBackend → Bool
is_local local = true
is_local _ = false

-- `isLiveRemoteBackend(backend)`.
abbrev pub is_live_remote_backend : TicketBackend → Bool
is_live_remote_backend b = not (is_local b)

abbrev cache_of : Option TrackerCache → TrackerCache
cache_of none = empty_tracker_cache
cache_of (some c) = c

abbrev live_cache : Option TrackerCache → String → TrackerCache
live_cache c at = record (cache_of c) {
  last_verified_at = some at;
  available = some true;
  stale = some false;
  outage = some false;
}

-- `markTrackerLive(state, goalId, at)`.
unfoldable pub mark_tracker_live : State → String → String → State
mark_tracker_live state goal_id at = elim (lookup goal_id state.goals) [
  | none ↦ state
  | some goal ↦ if is_local goal.backend then state else record state {
    goals =
        assign goal_id (record goal { backend = live_backend goal.backend at; updated_at = at })
          state.goals;
    tracker_cache = some (live_cache state.tracker_cache at);
  }
]

abbrev pub ticket_before : Host → Ticket → Ticket → Bool
ticket_before host a b =
    ltb a.order b.order || eqb a.order b.order && host.locale_le a.created_at b.created_at

-- `localTickets(state, goalId)`.
unfoldable pub local_tickets : Host → State → String → List Ticket
unfolding sort
local_tickets host state goal_id =
    sort (ticket_before host) (filter (λ t. t.goal_id == goal_id) (values state.local_tickets))

abbrev pub is_done : TicketStatus → Bool
is_done done = true
is_done _ = false

abbrev pub is_in_progress : TicketStatus → Bool
is_in_progress in_progress = true
is_in_progress _ = false

abbrev pub is_todo : TicketStatus → Bool
is_todo todo = true
is_todo _ = false

-- `state.local_tickets[id]?.status === "done"`.
abbrev pub ticket_done : State → String → Bool
ticket_done state id = elim (lookup id state.local_tickets) [
  | none ↦ false
  | some t ↦ is_done t.status
]

-- `nextLocalTicket(state, goalId)`.
unfoldable pub next_local_ticket : Host → State → String → Option Ticket
unfolding local_tickets
next_local_ticket host state goal_id =
    let tickets = local_tickets host state goal_id in
    or_else (find (λ t. is_in_progress t.status) tickets)
      (find (λ t. is_todo t.status && all (ticket_done state) t.blocked_by) tickets)

abbrev get_or_empty : Option (List String) → List String
get_or_empty none = []
get_or_empty (some l) = l

abbrev is_true : Option Bool → Bool
is_true none = false
is_true (some b) = b

-- `create` of the local provider. The identifier, a slug with a digest, is an argument.
unfoldable pub create_local :
    Host → State → String → TicketCreateInput → String → String → State × Ticket
unfolding local_tickets
create_local host state goal_id input id now =
    let ticket : Ticket = record {
      id = id;
      goal_id = goal_id;
      title = input.title;
      brief = input.brief;
      acceptance = get_or_empty input.acceptance;
      blocked_by = get_or_empty input.blocked_by;
      status = todo;
      code_changed = is_true input.code_changed;
      order = length (local_tickets host state goal_id);
      created_at = now;
      updated_at = now;
    } in
    (record state { local_tickets = assign id ticket state.local_tickets }, ticket)

-- `setStatus` of the local provider.
unfoldable pub set_status_local :
    State → String → TicketStatus → String → Outcome Error (State × Ticket)
set_status_local state id status now = elim (lookup id state.local_tickets) [
  | none ↦ throws (unknown_ticket id)
  | some current ↦
      if is_done status && any (λ dependency. not (ticket_done state dependency)) current.blocked_by
      then throws (blocked_by_dependency id)
      else let next : Ticket = record current { status = status; updated_at = now } in
        returns (record state { local_tickets = assign id next state.local_tickets }, next)
]

-- `providerForState(state, goalId)`, as the backend that answers.
unfoldable pub provider_for_state : State → String → Outcome Error TicketBackend
provider_for_state state goal_id = elim (lookup goal_id state.goals) [
  | none ↦ throws (unknown_goal goal_id)
  | some goal ↦ returns goal.backend
]

-- The operations of a provider.
module _ (host : Host) (m : Machine) (backend : TicketBackend) where
  unfoldable pub provider_list : State → String → Outcome Error (List Ticket)
  provider_list state goal_id =
      if is_local backend then returns (local_tickets host state goal_id) else m.remote.list goal_id

  unfoldable pub provider_get : State → String → Outcome Error (Option Ticket)
  provider_get state id =
      if is_local backend then returns (lookup id state.local_tickets) else m.remote.get id

  unfoldable pub provider_create :
      State → String → TicketCreateInput → String → String → Outcome Error (State × Ticket)
  provider_create state goal_id input id now =
      if is_local backend
      then returns (create_local host state goal_id input id now)
      else (m.remote.create goal_id input >>= λ t. returns (state, t))

  unfoldable pub provider_set_status :
      State → String → TicketStatus → String → Outcome Error (State × Ticket)
  provider_set_status state id status now =
      if is_local backend
      then set_status_local state id status now
      else (m.remote.set_status id status >>= λ t. returns (state, t))

  unfoldable pub provider_add_evidence : String → Outcome Error (Option String)
  provider_add_evidence id = if is_local backend then returns none else m.remote.add_evidence id
