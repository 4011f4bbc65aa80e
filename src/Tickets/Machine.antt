-- ===== src/Tickets/Machine.antt =====
-- What the lean commands act on: the state file with the event log, and the machine around them.
use ycm_harness.Common.{String, Bool, Option, List, [], ◌∷◌, ◌++◌, Outcome}
use ycm_harness.Schema.Lean.{State, Ticket, TicketStatus}

-- The errors that the commands throw, by what their messages say.
pub data Error : Type 0 where
  no_active_goal not_clean knowledge_mixed bad_assurance bad_backend multica_deprecated : Error
  runs_not_distinct evidence_stale closure_failed no_fresh_evidence high_needs_worktree : Error
  parent_required not_positive enforce_needs_high bad_mode no_worktree goal_unfinished : Error
  remote_failed command_failed session_required : Error
  unknown_goal unknown_ticket unknown_page blocked_by_dependency not_submitted : String → Error
  goal_exists verification_failed lacks_evidence claimed_by git_failed : String → Error

pub data EventKind : Type 0 where
  goal_created goal_blocked ticket_created ticket_started ticket_blocked : EventKind
  ticket_submitted ticket_done checkpoint_recorded : EventKind

pub record Event : Type 0 where
  pub kind : EventKind
  pub at : String
  pub goal_id : Option String
  pub ticket_id : Option String
  pub checkpoint_id : Option String

-- What is on disk: `state.json` and the lines of the event log.
pub record World : Type 0 where
  pub state : State
  pub events : List Event

-- `store.writeStateV3(state)`, for a state that the schema accepts.
abbrev pub write_state : World → State → String → World
write_state w state now = record w { state = record state { updated_at = now } }

abbrev pub record_event : World → Event → World
record_event w e = record w { events = w.events ++ e ∷ [] }

-- The trimmed output of `git status --porcelain`, `git rev-parse HEAD` and
-- `git rev-parse HEAD^{tree}`; absent where git fails.
pub record Git : Type 0 where
  pub porcelain : Option String
  pub head : Option String
  pub tree : Option String

-- What a submission digest is taken of.
pub record Submission : Type 0 where
  pub ticket_id : String
  pub acceptance : String
  pub commit : String
  pub tree : String
  pub dirty : String

pub data Surface : Type 0 where
  ticket_completion verification_completion goal_completion : Surface

-- A finished shell command: its exit code is 0, and the digest of its output.
pub record CommandRun : Type 0 where
  pub succeeded : Bool
  pub exit_code : String
  pub sha256 : String
  pub log_path : String

pub record TicketCreateInput : Type 0 where
  pub title : String
  pub brief : Option String
  pub acceptance : Option (List String)
  pub blocked_by : Option (List String)
  pub code_changed : Option Bool

-- The answers of a remote ticket provider (GitHub, Multica).
pub record Remote : Type 0 where
  pub list : String → Outcome Error (List Ticket)
  pub get : String → Outcome Error (Option Ticket)
  pub create : String → TicketCreateInput → Outcome Error Ticket
  pub set_status : String → TicketStatus → Outcome Error Ticket
  pub add_evidence : String → Outcome Error (Option String)

-- The machine that a command runs on: its directory, `path.resolve`, git in a directory, the
-- digests (SHA-256 of the JSON text), the closure gate of src/continuation, and the shell, which
-- may time out.
pub record Machine : Type 0 where
  pub cwd : String
  pub resolve : String → String → String
  pub git : String → Git
  pub sha : String → String
  pub sha_acceptance : List String → String
  pub sha_submission : Submission → String
  pub closure_passes : String → Surface → Bool
  pub run_shell : String → String → Option CommandRun
  pub remote : Remote
