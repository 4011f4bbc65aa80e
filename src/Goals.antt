-- ===== src/Goals.antt =====
-- src/cli/commands/goal.ts: the goal commands. `requireLeanState` has read the state.
use ycm_harness.Common.{
  ℕ, String, Bool, true, false, not, ◌&&◌, ◌||◌, Option, none, some, List, [], ◌∷◌, ◌==◌, Host, ltb,
  if◌then◌else◌, truthy, lookup, all, is_some, Outcome, returns, throws, ◌>>=◌, ◌>>◌, require,
  some_or,
}
use ycm_harness.Schema.Legacy.{WorktreeStatus, pending}
use ycm_harness.Schema.Lean.{
  State, Goal, GoalStatus, Assurance, standard, high, Ticket, TicketStatus, done, cancelled,
  TicketBackend, local, github, Readback,
}
use ycm_harness.Tickets.Machine.{
  Error, unknown_goal, no_active_goal, bad_assurance, bad_backend, multica_deprecated,
  parent_required, not_positive, goal_exists, goal_unfinished, lacks_evidence, closure_failed,
  enforce_needs_high, bad_mode, command_failed, World, write_state, record_event, Event, EventKind,
  goal_created, goal_blocked, Machine, goal_completion,
}
use ycm_harness.Tickets.Evidence.{evidence_root, fresh_completion_evidence}
use ycm_harness.Tickets.Provider.{
  is_local, is_done, mark_tracker_live, provider_for_state, provider_list,
}
use ycm_harness.Tickets.Shared.{active_lean_goal, mark_if_remote, put_goal, put_ticket}

abbrev goal_event : EventKind → String → String → Event
goal_event kind goal_id now = record {
  kind = kind;
  at = now;
  goal_id = some goal_id;
  ticket_id = none;
  checkpoint_id = none;
}

-- `assertAssurance(value)`.
unfoldable pub assert_assurance : String → Outcome Error Assurance
assert_assurance value =
    if value == "standard"
    then returns standard
    else if value == "high"
    then returns high
    else throws bad_assurance

-- The options of `goal create`. A number is absent where its text is no integer.
pub record CreateOptions : Type 0 where
  pub description : Option String
  pub assurance : String
  pub backend : String
  pub owner : String
  pub repo : String
  pub project_owner : String
  pub project : Option ℕ
  pub parent : Option String
  pub parent_number : Option ℕ

abbrev no_readback : Readback
no_readback = record {
  last_verified_at = none;
  cache_digest = none;
  available = none;
  stale = none;
  outage = none;
}

-- `parsePositiveInt(value, label)`, after `Number(value)`.
abbrev positive : Option ℕ → Outcome Error ℕ
positive none = throws not_positive
positive (some n) = if ltb 0 n then returns n else throws not_positive

-- `value || fallback`.
abbrev or_default : String → String → String
or_default value fallback = if value == "" then fallback else value

-- The backend that `goal create` builds.
unfoldable pub backend_of : CreateOptions → Outcome Error TicketBackend
backend_of opts =
    if opts.backend == "local"
    then returns local
    else if opts.backend == "github"
    then (require (truthy opts.parent) parent_required
        >> (positive opts.project >>= λ project. positive opts.parent_number >>= λ parent. returns (
            github (or_default opts.owner "johnyuencm") (or_default opts.repo "ycm-harness")
              (or_default opts.project_owner "johnyuencm") project parent no_readback)))
    else if opts.backend == "multica"
    then throws multica_deprecated
    else throws bad_backend

abbrev pub new_goal : String → String → CreateOptions → Assurance → TicketBackend → String → Goal
new_goal id title opts assurance backend now = record {
  id = id;
  title = title;
  description = opts.description;
  status = GoalStatus.active;
  assurance = assurance;
  backend = backend;
  active_ticket_id = none;
  worktree_path = none;
  branch = none;
  base_sha = none;
  worktree_status = pending;
  stop_enforcement = false;
  created_at = now;
  updated_at = now;
}

abbrev pub with_status : Goal → GoalStatus → String → Goal
with_status g status now = record g { status = status; updated_at = now }

abbrev pub closed : Goal → GoalStatus → String → Goal
closed g status now = record g { status = status; stop_enforcement = false; updated_at = now }

-- `if (state.active_goal_id === id) state.active_goal_id = undefined;`
abbrev pub deselect : Option String → String → Option String
deselect none id = none
deselect (some active) id = if active == id then none else some active

abbrev pub set_active : State → Option String → State
set_active state id = record state { active_goal_id = id }

abbrev pub is_finished : TicketStatus → Bool
is_finished done = true
is_finished cancelled = true
is_finished _ = false

abbrev is_high : Assurance → Bool
is_high high = true
is_high standard = false

-- `goal activate`.
unfoldable pub goal_activate : World → String → String → Outcome Error World
goal_activate w id now = do
  target ← some_or (lookup id w.state.goals) (unknown_goal id)
  let s : State =
      put_goal (set_active w.state (some id)) id (with_status target GoalStatus.active now)
  returns (write_state w s now)

-- `goal block`.
unfoldable pub goal_block : World → String → String → Outcome Error World
goal_block w id now = do
  target ← some_or (lookup id w.state.goals) (unknown_goal id)
  let s : State = put_goal w.state id (with_status target GoalStatus.blocked now)
  returns (record_event (write_state w s now) (goal_event goal_blocked id now))

-- `goal verify`.
unfoldable pub goal_verify : World → String → String → Outcome Error World
goal_verify w id now = do
  target ← some_or (lookup id w.state.goals) (unknown_goal id)
  returns (write_state w (put_goal w.state id (with_status target GoalStatus.verifying now)) now)

-- `goal abandon`.
unfoldable pub goal_abandon : World → String → String → Outcome Error World
goal_abandon w id now = do
  target ← some_or (lookup id w.state.goals) (unknown_goal id)
  let s : State = put_goal w.state id (closed target GoalStatus.abandoned now)
  returns (write_state w (set_active s (deselect s.active_goal_id id)) now)

-- `goal enforce`.
unfoldable pub goal_enforce : World → String → String → Outcome Error World
goal_enforce w mode now = do
  target ← some_or (active_lean_goal w.state) no_active_goal
  require (not (mode == "on" && not (is_high target.assurance))) enforce_needs_high
  require (mode == "on" || mode == "off") bad_mode
  let g : Goal = record target { stop_enforcement = mode == "on"; updated_at = now }
  returns (write_state w (put_goal w.state target.id g) now)

-- What `addWorktree` returns.
pub record AddWorktreeResult : Type 0 where
  pub relative_path : String
  pub branch : String
  pub base_sha : Option String

-- `goal worktree init`, with the answer of git, which is absent where it fails.
unfoldable pub goal_worktree_init :
    World → Option String → Option AddWorktreeResult → String → Outcome Error World
goal_worktree_init w goal_id answer now = do
  target ←
      some_or
        (if truthy goal_id
          then (elim goal_id [ none ↦ none | some k ↦ lookup k w.state.goals ])
          else active_lean_goal w.state)
        no_active_goal
  result ← some_or answer command_failed
  let g : Goal = record target {
    worktree_path = some result.relative_path;
    branch = some result.branch;
    base_sha = result.base_sha;
    worktree_status = WorktreeStatus.active;
    updated_at = now;
  }
  returns (write_state w (put_goal w.state target.id g) now)

module _ (host : Host) (m : Machine) where
  -- `goal create`.
  unfoldable pub goal_create :
      World → String → String → CreateOptions → String → Outcome Error World
  goal_create w id title opts now = do
    require (not (is_some (lookup id w.state.goals))) (goal_exists id)
    assurance ← assert_assurance opts.assurance
    backend ← backend_of opts
    let s1 : State =
        set_active (put_goal w.state id (new_goal id title opts assurance backend now)) (some id)
    rows ← (if is_local backend then returns [] else m.remote.list id)
    let s2 : State = if is_local backend then s1 else mark_tracker_live s1 id now
    returns (record_event (write_state w s2 now) (goal_event goal_created id now))

  -- The ticket whose evidence is looked for: the local one, with the provider's status.
  abbrev pub evidence_ticket : State → Ticket → Ticket
  evidence_ticket state t = elim (lookup t.id state.local_tickets) [
    | none ↦ t
    | some mine ↦ record mine { status = t.status; updated_at = t.updated_at }
  ]

  -- The loop of `goal complete` over the tickets that are done.
  unfoldable pub check_done : Goal → TicketBackend → State → List Ticket → Outcome Error State
  check_done target backend state [] = returns state
  check_done target backend state (t ∷ ts) =
      let rest = check_done target backend state ts in
      let cached = check_done target backend (put_ticket state t.id (evidence_ticket state t)) ts in
      if not (is_done t.status)
      then rest
      else ((if (evidence_ticket state t).code_changed
            then (fresh_completion_evidence host m (evidence_root m target) state
                  (evidence_ticket state t)
                >>= λ found. require (is_some found) (lacks_evidence t.id))
            else returns tt)
          >> (if is_local backend then rest else cached))

  -- `goal complete`.
  unfoldable pub goal_complete : World → String → String → Outcome Error World
  unfolding check_done
  goal_complete w id now = do
    target ← some_or (lookup id w.state.goals) (unknown_goal id)
    backend ← provider_for_state w.state id
    rows ← provider_list host m backend w.state id
    let s1 : State = mark_if_remote backend w.state id now
    require (all (λ t. is_finished t.status) rows) goal_unfinished
    s2 ← check_done target backend s1 rows
    require (m.closure_passes (evidence_root m target) goal_completion) closure_failed
    let s3 : State = put_goal s2 id (closed target GoalStatus.done now)
    returns (write_state w (set_active s3 (deselect s3.active_goal_id id)) now)
