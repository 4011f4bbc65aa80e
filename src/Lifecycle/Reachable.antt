-- ===== src/Lifecycle/Reachable.antt =====
-- Runs of the ticket, verify and goal commands, and what they reach.
use ycm_harness.Common.{
  ◌≡◌, some, [], not-In-nil, String, Option, none, List, lookup, Host, returns,
}
use ycm_harness.Schema.Lean.{Ticket, done, local, empty_state_v3}
use ycm_harness.Tickets.Machine.{Machine, World, TicketCreateInput, Error}
use ycm_harness.Tickets.Commands.{
  ticket_create, ticket_list, ticket_start, ticket_block, ticket_submit, ticket_complete,
  verify_run,
}
use ycm_harness.Goals.{
  CreateOptions, AddWorktreeResult, backend_of, goal_create, goal_activate, goal_block, goal_verify,
  goal_abandon, goal_enforce, goal_worktree_init, goal_complete,
}
use ycm_harness.Lifecycle.{Proven}
use ycm_harness.Lifecycle.TicketCommands.{
  Good, ticket_create-Sound, ticket_start-Sound, ticket_block-Sound, ticket_submit-Sound,
  ticket_complete-Sound,
}
use ycm_harness.Lifecycle.Verify.{verify_run-Sound, ticket_list-Sound}
use ycm_harness.Lifecycle.GoalCompletion.{goal_complete-Sound}
use ycm_harness.Lifecycle.GoalCommands.{
  goal_create-Sound, goal_activate-Sound, goal_block-Sound, goal_verify-Sound, goal_abandon-Sound,
  goal_enforce-Sound, goal_worktree_init-Sound,
}

-- One command that returned, with the time that it read. A drawn identifier of evidence is new, and a
-- new goal has the local backend.
pub data Step (host : Host) (m : Machine) (w : World) : World → Type 0 where
  created_ticket :
      {w' : World} (input : TicketCreateInput) (goal_id : Option String) (id now : String)
      → ticket_create host m w input goal_id id now ≡ returns w'
      → Step host m w w'
  listed :
      {w' : World} {rows : List Ticket} (goal_id : Option String) (now : String)
      → ticket_list host m w goal_id now ≡ returns (w', rows)
      → Step host m w w'
  started :
      {w' : World} (id now : String) → ticket_start host m w id now ≡ returns w' → Step host m w w'
  blocked :
      {w' : World} (id now : String) → ticket_block host m w id now ≡ returns w' → Step host m w w'
  submitted :
      {w' : World} (id evidence_id now : String)
      → lookup evidence_id w.state.evidence ≡ none
      → ticket_submit host m w id evidence_id now ≡ returns w'
      → Step host m w w'
  verified :
      {w' : World} {error : Option Error} (id command implementer verifier : String)
      (knowledge : List String) (evidence_id now : String)
      → lookup evidence_id w.state.evidence ≡ none
      → verify_run host m w id command implementer verifier knowledge evidence_id now
        ≡ returns (w', error)
      → Step host m w w'
  completed :
      {w' : World} (id now : String)
      → ticket_complete host m w id now ≡ returns w'
      → Step host m w w'
  created_goal :
      {w' : World} (id title : String) (opts : CreateOptions) (now : String)
      → backend_of opts ≡ returns local
      → goal_create host m w id title opts now ≡ returns w'
      → Step host m w w'
  activated_goal :
      {w' : World} (id now : String) → goal_activate w id now ≡ returns w' → Step host m w w'
  blocked_goal :
      {w' : World} (id now : String) → goal_block w id now ≡ returns w' → Step host m w w'
  verified_goal :
      {w' : World} (id now : String) → goal_verify w id now ≡ returns w' → Step host m w w'
  abandoned_goal :
      {w' : World} (id now : String) → goal_abandon w id now ≡ returns w' → Step host m w w'
  enforced_goal :
      {w' : World} (mode now : String) → goal_enforce w mode now ≡ returns w' → Step host m w w'
  housed_goal :
      {w' : World} (id : Option String) (answer : Option AddWorktreeResult) (now : String)
      → goal_worktree_init w id answer now ≡ returns w'
      → Step host m w w'
  completed_goal :
      {w' : World} (id now : String) → goal_complete host m w id now ≡ returns w' → Step host m w w'

-- A run of commands. Each command has a machine of its own: what git, the shell, the files and the
-- remote say while that command runs.
pub data Run (host : Host) (w : World) : World → Type 0 where
  start : Run host w w
  then : {w' w'' : World} (m : Machine) → Run host w w' → Step host m w' w'' → Run host w w''

pub Step-Sound : (host : Host) (m : Machine) {w w' : World} → Good w → Step host m w w' → Good w'
Step-Sound host m {w} k (created_ticket {w'} input goal_id id now h) =
    (ticket_create-Sound host m w now input goal_id id k).holds w' h
Step-Sound host m {w} k (listed {w'} {rows} goal_id now h) =
    (ticket_list-Sound host m w now goal_id k).holds (w', rows) h
Step-Sound host m {w} k (started {w'} id now h) = (ticket_start-Sound host m w now id k).holds w' h
Step-Sound host m {w} k (blocked {w'} id now h) = (ticket_block-Sound host m w now id k).holds w' h
Step-Sound host m {w} k (submitted {w'} id evidence_id now f h) =
    (ticket_submit-Sound host m w now id evidence_id f k).holds w' h
Step-Sound host m {w} k (verified {w'} {error} id command i v knowledge evidence_id now f h) =
    ((verify_run-Sound host m w now id command i v knowledge evidence_id f k).holds (w', error) h).0
Step-Sound host m {w} k (completed {w'} id now h) =
    (ticket_complete-Sound host m w now id k).holds w' h
Step-Sound host m {w} k (created_goal {w'} id title opts now l h) =
    (goal_create-Sound w now host m id title opts l k).holds w' h
Step-Sound host m {w} k (activated_goal {w'} id now h) = (goal_activate-Sound w now id k).holds w' h
Step-Sound host m {w} k (blocked_goal {w'} id now h) = (goal_block-Sound w now id k).holds w' h
Step-Sound host m {w} k (verified_goal {w'} id now h) = (goal_verify-Sound w now id k).holds w' h
Step-Sound host m {w} k (abandoned_goal {w'} id now h) = (goal_abandon-Sound w now id k).holds w' h
Step-Sound host m {w} k (enforced_goal {w'} mode now h) =
    (goal_enforce-Sound w now mode k).holds w' h
Step-Sound host m {w} k (housed_goal {w'} id answer now h) =
    (goal_worktree_init-Sound w now id answer k).holds w' h
Step-Sound host m {w} k (completed_goal {w'} id now h) =
    (goal_complete-Sound host m w now id k).holds w' h

pub Run-Sound : (host : Host) {w w' : World} → Good w → Run host w w' → Good w'
Run-Sound host k start = k
Run-Sound host k (then m r s) = Step-Sound host m (Run-Sound host k r) s

-- The world of a project that was just initialised.
unfoldable pub new_world : String → World
unfolding empty_state_v3
new_world now = record { state = empty_state_v3 now; events = [] }

pub new_world-Sound : (now : String) → Good (new_world now)
unfolding new_world empty_state_v3 lookup
new_world-Sound now = record {
  locals = λ g i. absurd (not-In-nil i);
  traced = λ e i. absurd (not-In-nil i);
  backed = λ id t h. cc;
}

-- In every world that the ticket, verify and goal commands reach from a new project whose goals are
-- all local, where each drawn evidence identifier is new and git, the shell and the files may change
-- from one command to the next: a stored ticket that is done has, for one
-- digest, a pointer that `ticket submit` recorded for this ticket and a pointer that records a passing
-- verification of it, with an implementer's run and a different verifier's run, both not empty.
pub done_is_Proven :
    (host : Host) (now : String) {w : World}
    → Run host (new_world now) w
    → (id : String) (t : Ticket) → lookup id w.state.local_tickets ≡ some t
    → t.status ≡ done
    → Proven w.state.evidence t
done_is_Proven host now {w} r id t h d =
    ((Run-Sound host (new_world-Sound now) r).backed id t h).1 d
