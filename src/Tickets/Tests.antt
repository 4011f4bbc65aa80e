-- ===== src/Tickets/Tests.antt =====
-- Tickets and their evidence at concrete inputs.
use ycm_harness.Common.{
  ◌≡◌, refl, ◌↔◌, ◌⊎◌, String, true, none, some, [], ◌∷◌, lookup, In, values, code_point_host,
  is_some, returns, throws, sort,
}
use ycm_harness.Schema.Lean.{
  State, Ticket, todo, done, EvidencePointer, EvidenceKind, EvidenceOutcome, empty_state_v3,
}
use ycm_harness.Tickets.Machine.{Machine, no_active_goal, Git, Remote}
use ycm_harness.Tickets.Evidence.{newest_submission, completion_evidence, fresh_completion_evidence}
use ycm_harness.Tickets.Evidence.Exact.{Current, fresh_completion_evidence_iff}
use ycm_harness.Tickets.Evidence.Newest.{
  Submitted, Vouched, completion_evidence_iff, newest_submission_lem,
}
use ycm_harness.Tickets.Provider.{next_local_ticket, local_tickets, set_status_local}
use ycm_harness.Tickets.Provider.StatusChange.{StatusSet, set_status_local_iff}
use ycm_harness.Tickets.Provider.Choice.{
  Started, Ready, next_local_ticket_actionable, next_local_ticket-none_iff,
}

abbrev ticket : Ticket
ticket = record {
  id = "t1";
  goal_id = "g1";
  title = "T";
  brief = none;
  acceptance = [];
  blocked_by = [];
  status = todo;
  code_changed = true;
  order = 0;
  created_at = "2024-01-01";
  updated_at = "2024-01-01";
}

abbrev dependent : Ticket
dependent = record ticket { id = "t2"; blocked_by = "t1" ∷ []; order = 1 }

abbrev submission : EvidencePointer
submission = record {
  id = "e1";
  goal_id = "g1";
  ticket_id = some "t1";
  kind = EvidenceKind.other;
  submission_digest = some "digest";
  evidence_digest = none;
  evidence_path = none;
  remote_comment_id = none;
  command = none;
  outcome = none;
  provenance = [];
  recorded_at = "2024-01-02";
}

abbrev verification : EvidencePointer
verification = record submission {
  id = "e2";
  outcome = some EvidenceOutcome.pass;
  provenance = ("implementer_run", "i") ∷ ("verifier_run", "v") ∷ [];
  recorded_at = "2024-01-03";
}

abbrev state : State
state = record (empty_state_v3 "2024-01-01") {
  local_tickets = ("t1", ticket) ∷ ("t2", dependent) ∷ [];
  evidence = ("e1", submission) ∷ ("e2", verification) ∷ [];
}

abbrev no_remote : Remote
no_remote = record {
  list = λ g. throws no_active_goal;
  get = λ g. throws no_active_goal;
  create = λ g i. throws no_active_goal;
  set_status = λ g i. throws no_active_goal;
  add_evidence = λ g. throws no_active_goal;
}

abbrev clean_git : Git
clean_git = record { porcelain = some ""; head = some "c1"; tree = some "t1" }

abbrev machine : Machine
machine = record {
  cwd = "/p";
  resolve = λ a b. b;
  git = λ d. clean_git;
  sha = λ s. s;
  sha_acceptance = λ l. "a";
  sha_submission = λ s. "digest";
  closure_passes = λ d s. true;
  run_shell = λ c d. none;
  remote = no_remote;
}

completion_evidence_iff_example :
    (is_some (completion_evidence code_point_host state ticket) ≡ true) ↔ (
      (sub e : EvidencePointer) × (digest : String) × (newest_submission code_point_host state
          ticket
        ≡ some sub)
      × Submitted ticket digest sub
      × In e (values state.evidence)
      × Vouched ticket digest e)
completion_evidence_iff_example = completion_evidence_iff code_point_host state ticket

fresh_completion_evidence_iff_example :
    (fresh_completion_evidence code_point_host machine "/p" state ticket
      ≡ returns (some verification))
    ↔ Current code_point_host machine "/p" state ticket verification
fresh_completion_evidence_iff_example =
    fresh_completion_evidence_iff code_point_host machine "/p" state ticket verification

newest_found : newest_submission code_point_host state ticket ≡ some verification
unfolding newest_submission lookup sort empty_state_v3
newest_found = refl

newest_submission_lem_example :
    In verification (values state.evidence)
    × ((digest : String) × Submitted ticket digest verification)
    × ((o : EvidencePointer)
        → In o (values state.evidence)
        → (digest : String) → Submitted ticket digest o
        → code_point_host.locale_le o.recorded_at verification.recorded_at ≡ true)
newest_submission_lem_example =
    newest_submission_lem code_point_host state ticket verification newest_found

chosen : next_local_ticket code_point_host state "g1" ≡ some ticket
unfolding next_local_ticket local_tickets sort lookup empty_state_v3
chosen = refl

next_local_ticket_actionable_example :
    Started state "g1" ticket
    ⊎ (((u : Ticket) → Started state "g1" u → ⊥) × Ready state "g1" ticket)
next_local_ticket_actionable_example =
    next_local_ticket_actionable code_point_host state "g1" ticket chosen

next_local_ticket-none_iff_example :
    (next_local_ticket code_point_host state "g1" ≡ none)
    ↔ (((t : Ticket) → Started state "g1" t → ⊥) × ((t : Ticket) → Ready state "g1" t → ⊥))
next_local_ticket-none_iff_example = next_local_ticket-none_iff code_point_host state "g1"

abbrev answer : State × Ticket
answer = (state, ticket)

set_status_local_iff_example :
    (set_status_local state "t2" done "2024-01-04" ≡ returns answer)
    ↔ StatusSet state "t2" done "2024-01-04" answer
set_status_local_iff_example = set_status_local_iff state "t2" done "2024-01-04" answer
