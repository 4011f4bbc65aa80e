-- ===== src/Tickets/Commands.antt =====
-- src/cli/commands/ticket.ts and src/cli/commands/verify.ts. A command reads the clock once, and
-- the identifiers that it draws are arguments; `requireLeanState` has read the state.
use ycm_harness.Common.{
  String, Bool, true, false, not, ◌&&◌, ◌||◌, Option, none, some, List, [], ◌∷◌, ◌==◌, Host,
  if◌then◌else◌, truthy, lookup, assign, find, or_else, Outcome, returns, ◌>>=◌, ◌>>◌, require,
  some_or,
}
use ycm_harness.Schema.Lean.{
  State, Goal, Assurance, standard, high, Ticket, TicketStatus, in_progress, in_review, done,
  EvidencePointer, EvidenceKind,
}
use ycm_harness.Tickets.Machine.{
  Error, unknown_goal, closure_failed, high_needs_worktree, no_fresh_evidence, runs_not_distinct,
  not_submitted, evidence_stale, verification_failed, World, write_state, record_event,
  ticket_created, ticket_started, ticket_blocked, ticket_submitted, ticket_done, Machine,
  verification_completion, TicketCreateInput,
}
use ycm_harness.Tickets.Evidence.{
  submission_digest, validate_knowledge, evidence_root, execute_verification, newest_submission,
  fresh_completion_evidence, same_text,
}
use ycm_harness.Tickets.Shared.{
  goal_for, ticket_event, mark_if_remote, put_ticket, put_goal, ensure_ticket, merged, save_ticket,
}
use ycm_harness.Tickets.Provider.{
  is_live_remote_backend, is_local, is_in_progress, is_todo, next_local_ticket, provider_for_state,
  provider_list, provider_create, provider_set_status, provider_add_evidence,
}

abbrev is_high : Assurance → Bool
is_high high = true
is_high standard = false

-- The rows of a remote provider, cached under their identifiers.
cache_rows : State → Goal → List Ticket → State
cache_rows state goal [] = state
cache_rows state goal (t ∷ ts) =
    cache_rows (put_ticket state t.id (record t { goal_id = goal.id })) goal ts

abbrev needs_worktree : Goal → Bool
needs_worktree goal = is_high goal.assurance && not (truthy goal.worktree_path)

abbrev pub submission_pointer : String → Ticket → String → Option String → String → EvidencePointer
submission_pointer evidence_id current digest remote_comment_id now = record {
  id = evidence_id;
  goal_id = current.goal_id;
  ticket_id = some current.id;
  kind = EvidenceKind.other;
  submission_digest = some digest;
  evidence_digest = none;
  evidence_path = none;
  remote_comment_id = remote_comment_id;
  command = none;
  outcome = none;
  provenance = ("state", "submitted") ∷ ("submitted_at", now) ∷ [];
  recorded_at = now;
}

abbrev pub put_evidence : State → EvidencePointer → State
put_evidence state e = record state { evidence = assign e.id e state.evidence }

module _ (host : Host) (m : Machine) where
  -- `ticket create`.
  unfoldable pub ticket_create :
      World → TicketCreateInput → Option String → String → String → Outcome Error World
  ticket_create w input goal_id id now = do
    goal ← goal_for w.state goal_id
    backend ← provider_for_state w.state goal.id
    (s1, created) ← provider_create host m backend w.state goal.id input id now
    let s2 : State = put_ticket s1 created.id created
    let s3 : State = put_goal s2 goal.id (record goal {
      active_ticket_id = or_else goal.active_ticket_id (some created.id);
      updated_at = now;
    })
    returns (
        record_event (write_state w s3 now)
          (ticket_event ticket_created (some goal.id) created.id now))

  -- `ticket list`.
  unfoldable pub ticket_list : World → Option String → String → Outcome Error (World × List Ticket)
  unfolding cache_rows
  ticket_list w goal_id now = do
    goal ← goal_for w.state goal_id
    backend ← provider_for_state w.state goal.id
    rows ← provider_list host m backend w.state goal.id
    let s1 : State = mark_if_remote backend w.state goal.id now
    returns (
        if is_local goal.backend
        then (w, rows)
        else (write_state w (cache_rows s1 goal rows) now, rows))

  -- `ticket claim` and `ticket start`.
  unfoldable pub ticket_start : World → String → String → Outcome Error World
  ticket_start w id now = do
    (s1, current) ← ensure_ticket host m w.state id
    goal ← some_or (lookup current.goal_id s1.goals) (unknown_goal current.goal_id)
    require (not (needs_worktree goal)) high_needs_worktree
    s2 ← save_ticket host m s1 id in_progress now
    returns
        (record_event (write_state w s2 now) (ticket_event ticket_started (some goal.id) id now))

  -- `ticket block`.
  unfoldable pub ticket_block : World → String → String → Outcome Error World
  ticket_block w id now = do
    (s1, current) ← ensure_ticket host m w.state id
    s2 ← save_ticket host m s1 id TicketStatus.blocked now
    returns (record_event (write_state w s2 now) (ticket_event ticket_blocked none id now))

  -- `ticket submit`.
  unfoldable pub ticket_submit : World → String → String → String → Outcome Error World
  ticket_submit w id evidence_id now = do
    (s1, current) ← ensure_ticket host m w.state id
    goal ← some_or (lookup current.goal_id s1.goals) (unknown_goal current.goal_id)
    digest ← submission_digest m (evidence_root m goal) current
    backend ← provider_for_state s1 current.goal_id
    comment ←
        (if is_live_remote_backend backend
          then provider_add_evidence host m backend id
          else returns none)
    (s2, updated) ← provider_set_status host m backend s1 id in_review now
    let s3 : State = mark_if_remote backend s2 current.goal_id now
    let s4 : State =
        put_evidence s3 (record (submission_pointer evidence_id current digest comment now) {
          ticket_id = some id;
        })
    let s5 : State = put_ticket s4 id (merged updated current in_review updated.updated_at)
    returns (
        record_event (write_state w s5 now)
          (ticket_event ticket_submitted (some current.goal_id) id now))

  -- `ticket done`.
  unfoldable pub ticket_complete : World → String → String → Outcome Error World
  ticket_complete w id now = do
    (s1, current) ← ensure_ticket host m w.state id
    goal ← some_or (lookup current.goal_id s1.goals) (unknown_goal current.goal_id)
    found ← fresh_completion_evidence host m (evidence_root m goal) s1 current
    evidence ← some_or found no_fresh_evidence
    let implementer : Option String = lookup "implementer_run" evidence.provenance
    let verifier : Option String = lookup "verifier_run" evidence.provenance
    require
        (not (not (truthy implementer) || not (truthy verifier) || same_text implementer verifier))
        runs_not_distinct
    s2 ← save_ticket host m s1 id done now
    returns (
        record_event (write_state w s2 now)
          (ticket_event ticket_done (some current.goal_id) id now))

  -- `ticket next`, and the choice that `next` and `goal status` make.
  unfoldable pub next_ticket : State → Goal → List Ticket → Option Ticket
  next_ticket state goal rows =
      if is_local goal.backend
      then next_local_ticket host state goal.id
      else or_else (find (λ t. is_in_progress t.status) rows) (find (λ t. is_todo t.status) rows)

  -- `verify run`. The second part is the error that is thrown after the state was written.
  unfoldable pub verify_run :
      World
      → String
      → String
      → String
      → String
      → List String
      → String
      → String
      → Outcome Error (World × Option Error)
  verify_run w ticket_id command implementer verifier knowledge_given evidence_id now = do
    (s1, ticket) ← ensure_ticket host m w.state ticket_id
    knowledge ← validate_knowledge s1 knowledge_given
    submitted ← some_or (newest_submission host s1 ticket) (not_submitted ticket.id)
    digest ← some_or submitted.submission_digest (not_submitted ticket.id)
    goal ← some_or (lookup ticket.goal_id s1.goals) (unknown_goal ticket.goal_id)
    let root : String = evidence_root m goal
    current ← submission_digest m root ticket
    require (current == digest) evidence_stale
    require (m.closure_passes root verification_completion) closure_failed
    (pointer, run) ←
        execute_verification m root ticket command implementer verifier knowledge evidence_id now
    backend ← provider_for_state s1 ticket.goal_id
    comment ←
        (if is_live_remote_backend backend
          then provider_add_evidence host m backend ticket.id
          else returns none)
    let final : EvidencePointer = record pointer {
      submission_digest = some digest;
      remote_comment_id = comment;
    }
    let s2 : State = put_evidence s1 final
    let status : TicketStatus = if run.succeeded then done else in_progress
    (s3, remote) ← provider_set_status host m backend s2 ticket.id status now
    let s4 : State = mark_if_remote backend s3 ticket.goal_id now
    let s5 : State = put_ticket s4 ticket.id (merged remote ticket status now)
    returns (
      write_state w s5 now,
      if run.succeeded then none else some (verification_failed run.exit_code),
    )
