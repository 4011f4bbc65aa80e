-- ===== src/Lifecycle/Tests.antt =====
-- A run of the commands on a project with one local goal and one ticket.
use ycm_harness.Common.{
  ◌≡◌, refl, true, Option, none, some, [], lookup, assign, code_point_host, Outcome, returns,
  throws, ◌>>=◌, ◌>>◌, require, some_or, sort, trim, lower_is,
}
use ycm_harness.Schema.Lean.{Ticket, done, empty_state_v3}
use ycm_harness.Tickets.Machine.{
  Machine, World, Remote, CommandRun, Error, no_active_goal, TicketCreateInput, Git,
}
use ycm_harness.Tickets.Shared.{goal_for, active_lean_goal, ensure_ticket}
use ycm_harness.Tickets.Provider.{
  provider_for_state, provider_create, create_local, local_tickets, provider_set_status,
  set_status_local, provider_list,
}
use ycm_harness.Tickets.Evidence.{
  evidence_root, submission_digest, validate_knowledge, newest_submission, execute_verification,
  completion_evidence, fresh_completion_evidence,
}
use ycm_harness.Tickets.Commands.{ticket_create, ticket_submit, verify_run}
use ycm_harness.Goals.{
  assert_assurance, backend_of, CreateOptions, goal_create, goal_complete, check_done,
}
use ycm_harness.Lifecycle.{Proven}
use ycm_harness.Lifecycle.Reachable.{
  Step, Run, new_world, done_is_Proven, Step-Sound, Run-Sound, new_world-Sound,
}
use ycm_harness.Lifecycle.TicketCommands.{Good}
use ycm_harness.Lifecycle.Verify.{Checked, verify_run-Checked}
use ycm_harness.Lifecycle.GoalCompletion.{Closed, goal_complete-Closed}

abbrev pub no_remote : Remote
no_remote = record {
  list = λ g. throws no_active_goal;
  get = λ g. throws no_active_goal;
  create = λ g i. throws no_active_goal;
  set_status = λ g i. throws no_active_goal;
  add_evidence = λ g. throws no_active_goal;
}

abbrev pub clean_git : Git
clean_git = record { porcelain = some ""; head = some "c1"; tree = some "t1" }

abbrev pub good_run : CommandRun
good_run = record { succeeded = true; exit_code = "0"; sha256 = "s"; log_path = "log" }

abbrev pub machine : Machine
machine = record {
  cwd = "/p";
  resolve = λ a b. b;
  git = λ d. clean_git;
  sha = λ s. s;
  sha_acceptance = λ l. "a";
  sha_submission = λ s. "digest";
  closure_passes = λ d s. true;
  run_shell = λ c d. some good_run;
  remote = no_remote;
}

-- The machine before the first commit, where no command finishes.
abbrev early : Machine
early = record machine {
  git = λ d. record { porcelain = some "?? a"; head = none; tree = none };
  run_shell = λ c d. none;
}

abbrev pub options : CreateOptions
options = record {
  description = none;
  assurance = "standard";
  backend = "local";
  owner = "";
  repo = "";
  project_owner = "";
  project = none;
  parent = none;
  parent_number = none;
}

abbrev pub input : TicketCreateInput
input = record {
  title = "T";
  brief = none;
  acceptance = none;
  blocked_by = none;
  code_changed = some true;
}

abbrev pub w0 : World
w0 = new_world "2024-01-01"

abbrev pub unwrap : World → Outcome Error World → World
unwrap w (returns v) = v
unwrap w (throws e) = w

abbrev pub unwrap_first : World → Outcome Error (World × Option Error) → World
unwrap_first w (returns v) = v.0
unwrap_first w (throws e) = w

abbrev pub w1 : World
w1 = unwrap w0 (goal_create code_point_host early w0 "g1" "G" options "2024-01-02")

abbrev pub w2 : World
w2 = unwrap w1 (ticket_create code_point_host early w1 input none "t1" "2024-01-03")

abbrev pub w3 : World
w3 = unwrap w2 (ticket_submit code_point_host machine w2 "t1" "e1" "2024-01-04")

abbrev pub w4 : World
w4 =
    unwrap_first w3
      (verify_run code_point_host machine w3 "t1" "true" "impl" "ver" [] "e2" "2024-01-05")

created : Step code_point_host early w0 w1
unfolding goal_create new_world empty_state_v3 lookup assign ◌>>=◌ ◌>>◌ require assert_assurance
    backend_of
created = Step.created_goal "g1" "G" options "2024-01-02" refl refl

filed : Step code_point_host early w1 w2
unfolding goal_create new_world empty_state_v3 lookup assign ◌>>=◌ ◌>>◌ require assert_assurance
    backend_of goal_for active_lean_goal provider_for_state provider_create create_local
    ticket_create some_or sort local_tickets
filed = Step.created_ticket input none "t1" "2024-01-03" refl

handed_in : Step code_point_host machine w2 w3
unfolding goal_create new_world empty_state_v3 lookup assign ◌>>=◌ ◌>>◌ require assert_assurance
    backend_of goal_for active_lean_goal provider_for_state provider_create create_local
    ticket_create some_or sort local_tickets ticket_submit ensure_ticket evidence_root
    submission_digest provider_set_status set_status_local
handed_in = Step.submitted "t1" "e1" "2024-01-04" refl refl

checked : Step code_point_host machine w3 w4
unfolding goal_create new_world empty_state_v3 lookup assign ◌>>=◌ ◌>>◌ require assert_assurance
    backend_of goal_for active_lean_goal provider_for_state provider_create create_local
    ticket_create some_or sort local_tickets ticket_submit ensure_ticket evidence_root
    submission_digest provider_set_status set_status_local verify_run validate_knowledge
    newest_submission execute_verification trim lower_is
checked = Step.verified {error = none} "t1" "true" "impl" "ver" [] "e2" "2024-01-05" refl refl

abbrev t1 : Ticket
t1 = record {
  id = "t1";
  goal_id = "g1";
  title = "T";
  brief = none;
  acceptance = [];
  blocked_by = [];
  status = done;
  code_changed = true;
  order = 0;
  created_at = "2024-01-03";
  updated_at = "2024-01-05";
}

t1_stored : lookup "t1" w4.state.local_tickets ≡ some t1
unfolding goal_create new_world empty_state_v3 lookup assign ◌>>=◌ ◌>>◌ require assert_assurance
    backend_of goal_for active_lean_goal provider_for_state provider_create create_local
    ticket_create some_or sort local_tickets ticket_submit ensure_ticket evidence_root
    submission_digest provider_set_status set_status_local verify_run validate_knowledge
    newest_submission execute_verification trim lower_is
t1_stored = refl

abbrev submitted_run : Run code_point_host w0 w3
submitted_run = Run.then machine (Run.then early (Run.then early Run.start created) filed) handed_in

done_is_Proven_example : Proven w4.state.evidence t1
done_is_Proven_example =
    done_is_Proven code_point_host "2024-01-01" (Run.then machine submitted_run checked) "t1" t1
      t1_stored refl

new_Good : Good w3
new_Good = Run-Sound code_point_host (new_world-Sound "2024-01-01") submitted_run

pub verified_Good : Good w4
verified_Good = Step-Sound code_point_host machine new_Good checked

abbrev outcome : World × Option Error
outcome = (w4, none)

e2_new : lookup "e2" w3.state.evidence ≡ none
unfolding goal_create new_world empty_state_v3 lookup assign ◌>>=◌ ◌>>◌ require assert_assurance
    backend_of goal_for active_lean_goal provider_for_state provider_create create_local
    ticket_create some_or sort local_tickets ticket_submit ensure_ticket evidence_root
    submission_digest provider_set_status set_status_local
e2_new = refl

verified_returns :
    verify_run code_point_host machine w3 "t1" "true" "impl" "ver" [] "e2" "2024-01-05"
    ≡ returns outcome
unfolding goal_create new_world empty_state_v3 lookup assign ◌>>=◌ ◌>>◌ require assert_assurance
    backend_of goal_for active_lean_goal provider_for_state provider_create create_local
    ticket_create some_or sort local_tickets ticket_submit ensure_ticket evidence_root
    submission_digest provider_set_status set_status_local verify_run validate_knowledge
    newest_submission execute_verification trim lower_is
verified_returns = refl

verify_run-Checked_example :
    Checked code_point_host machine "2024-01-05" w3.state "t1" "true" "impl" "ver" "e2" outcome
verify_run-Checked_example =
    verify_run-Checked code_point_host machine w3 "2024-01-05" "t1" "true" "impl" "ver" [] "e2"
      outcome e2_new new_Good verified_returns

abbrev pub w5 : World
w5 = unwrap w4 (goal_complete code_point_host machine w4 "g1" "2024-01-06")

completed_returns : goal_complete code_point_host machine w4 "g1" "2024-01-06" ≡ returns w5
unfolding goal_create new_world empty_state_v3 lookup assign ◌>>=◌ ◌>>◌ require assert_assurance
    backend_of goal_for active_lean_goal provider_for_state provider_create create_local
    ticket_create some_or sort local_tickets ticket_submit ensure_ticket evidence_root
    submission_digest provider_set_status set_status_local verify_run validate_knowledge
    newest_submission execute_verification trim lower_is goal_complete provider_list check_done
    fresh_completion_evidence completion_evidence
completed_returns = refl

goal_complete-Closed_example : Closed code_point_host machine w4.state "g1" w5
goal_complete-Closed_example =
    goal_complete-Closed code_point_host machine w4 "2024-01-06" "g1" w5 verified_Good.locals
      completed_returns
