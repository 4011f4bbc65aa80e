-- ===== src/Hooks/Stop.antt =====
-- src/hooks/stop.ts: whether the stop hook blocks.
pub mod Words
pub mod Asked
pub mod Waiting
pub mod Attention
pub mod Blocks
pub mod Dispatch
mod Tests
use ycm_harness.Common.{
  ℕ, ◌+◌, String, Bool, true, false, not, ◌&&◌, ◌||◌, Option, none, some, List, [], ◌∷◌, ◌==◌, any,
  find, filter, filter_map, leb, sort, opt_eq, is_some, if◌then◌else◌, or_else,
}
use Prim.Native.Char.{code}
use Prim.Native.String.{[], ◌∷◌}
use ycm_harness.Common.{eqb}
use ycm_harness.Continuation.Labels.{append_text, lower_char}
use ycm_harness.Hooks.Json.{
  Json, number, string, Fields, object, record_of, text_of, get, records_in, records_of, is_true,
  is_false,
}

abbrev pub text_at : String → Fields → Option String
text_at key r = text_of (get key r)

abbrev pub record_at : String → Fields → Option Fields
record_at key r = record_of (get key r)

abbrev pub one_of : List String → Option String → Bool
one_of words none = false
one_of words (some s) = any (λ w. s == w) words

-- `TERMINAL_GOAL_STATUSES`, `ACTIONABLE_TICKET_STATUSES` and `REVIEW_TICKET_STATUSES`
abbrev pub terminal_goal_statuses : List String
terminal_goal_statuses = "done" ∷ "abandoned" ∷ "cancelled" ∷ "complete" ∷ []

abbrev pub actionable_ticket_statuses : List String
actionable_ticket_statuses = "todo" ∷ "pending" ∷ "active" ∷ "in_progress" ∷ []

abbrev pub review_ticket_statuses : List String
review_ticket_statuses = "in_review" ∷ "in-review" ∷ []

abbrev pub goal_statuses : List String
goal_statuses = "planning" ∷ "active" ∷ "verifying" ∷ "blocked" ∷ "draft" ∷ []

abbrev pub selected : Option String → Fields → Option Fields
selected none goals = none
selected (some id) goals = record_at id goals

abbrev pub goal_in : Fields → Option Fields → Option Fields
goal_in raw none = none
goal_in raw (some goals) =
    or_else (selected (text_at "active_goal_id" raw) goals)
      (find (λ g. one_of goal_statuses (text_at "status" g)) (records_in goals))

-- `goalOf(state)`, of the state as a record.
unfoldable pub goal_of : Fields → Option Fields
unfolding get records_in
goal_of raw = goal_in raw (record_at "goals" raw)

abbrev pub unless_terminal : Option Fields → Option Fields
unless_terminal none = none
unless_terminal (some goal) =
    if is_some (text_at "status" goal)
      && not (one_of terminal_goal_statuses (text_at "status" goal))
    then some goal
    else none

-- `activeGoal(state)`
unfoldable pub active_goal : Fields → Option Fields
unfolding goal_of get
active_goal raw = unless_terminal (goal_of raw)

-- `goalId(state, goal)`
unfoldable pub goal_id : Fields → Fields → Option String
unfolding get
goal_id raw goal = or_else (text_at "id" goal) (text_at "active_goal_id" raw)

abbrev pub first_record : Option Fields → Option Fields → Option Fields → Option Fields
first_record a b c = or_else a (or_else b c)

abbrev order_of : Option Json → ℕ
order_of (some (number n)) = n
order_of _ = 999

abbrev pub is_text : Option String → Option String → Bool
is_text o none = false
is_text o (some id) = opt_eq o id

abbrev pub phase_goal : Option String → Option Fields → Option String
phase_goal none phases = none
phase_goal (some phase) none = none
phase_goal (some phase) (some phases) = elim (record_at phase phases) [
  | none ↦ none
  | some p ↦ text_at "goal_id" p
]

unfoldable pub is_ticket_of : Fields → Option String → Fields → Bool
unfolding get
is_ticket_of raw id ticket =
    is_text (text_at "goal_id" ticket) id
    || is_text (phase_goal (text_at "phase_id" ticket) (record_at "phases" raw)) id

-- `ticketsForGoal(state, goal)`
unfoldable pub tickets_for_goal : Fields → Fields → List Fields
unfolding get records_in goal_id is_ticket_of sort
tickets_for_goal raw goal =
    sort (λ a b. leb (order_of (get "order" a)) (order_of (get "order" b)))
      (filter (is_ticket_of raw (goal_id raw goal)) (
        records_of (
          first_record (record_at "local_tickets" raw) (record_at "tickets" raw)
            (record_at "tasks" raw))))

abbrev pub is_kind : String → Option Json → Bool
is_kind word (some (string s)) = s == word
is_kind word _ = false

abbrev pub backend_down : Option Fields → Bool
backend_down none = false
backend_down (some b) =
    is_false (get "available" b)
    || (is_true (get "outage" b)
        || ((is_kind "github" (get "kind" b) || is_kind "multica" (get "kind" b))
            && not (is_some (text_at "last_verified_at" b))))

abbrev pub cache_down : Option Fields → Bool
cache_down none = false
cache_down (some c) = is_false (get "available" c) || is_true (get "outage" c)

-- `trackerUnavailable(state, goal)`
unfoldable pub tracker_unavailable : Fields → Fields → Bool
unfolding get
tracker_unavailable raw goal =
    backend_down (
      first_record (record_at "backend" goal) (record_at "ticket_backend" goal)
        (record_at "ticket_backend" raw))
    || (cache_down (or_else (record_at "tracker_cache" raw) (record_at "ticket_cache" raw))
        || is_true (get "tracker_unavailable" goal))

-- A small word at the start of a text, in lower case.
unfoldable pub starts_with : String → String → Bool
unfolding lower_char
starts_with [] s = true
starts_with (w ∷ ws) [] = false
starts_with (w ∷ ws) (c ∷ s) = eqb (code (lower_char c)) (code w) && starts_with ws s

unfoldable pub contains : String → String → Bool
unfolding starts_with
contains word [] = starts_with word []
contains word (c ∷ s) = starts_with word (c ∷ s) || contains word s

-- `texts.join(" ")`
unfoldable pub join_space : List String → String
unfolding append_text
join_space [] = ""
join_space (t ∷ []) = t
join_space (t ∷ u ∷ ts) = append_text t (append_text " " (join_space (u ∷ ts)))

abbrev pub waiting_words : List String
waiting_words = "human" ∷ "external" ∷ "user" ∷ "approval" ∷ "manual" ∷ "dependency" ∷ []

-- `waitingForHumanOrExternal(goal)`
unfoldable pub waiting_for_human_or_external : Fields → Bool
unfolding get contains join_space
waiting_for_human_or_external goal =
    let values = join_space (
      filter_map (λ key. text_at key goal)
        ("wait_reason" ∷ "waiting_for" ∷ "wait_state" ∷ "pause_reason" ∷ [])) in
    any (λ word. contains word values) waiting_words || is_true (get "waiting" goal)

abbrev pub or_todo : Option String → Option String
or_todo none = some "todo"
or_todo (some s) = some s

abbrev pub is_pass_outcome : Option Json → Bool
is_pass_outcome o = is_kind "pass" o

abbrev pub same_text : Option String → Option String → Bool
same_text none none = true
same_text none (some t) = false
same_text (some s) none = false
same_text (some s) (some t) = s == t

-- `ticketNeedsAttention(state, ticket)`
unfoldable pub ticket_needs_attention : Fields → Fields → Bool
unfolding get records_in
ticket_needs_attention raw ticket =
    let status = or_todo (text_at "status" ticket) in
    if one_of actionable_ticket_statuses status || one_of review_ticket_statuses status
    then true
    else if not (opt_eq status "done")
    then false
    else if not (is_true (get "code_changed" ticket))
    then false
    else not (
        any
          (λ e.
            same_text (text_at "ticket_id" e) (text_at "id" ticket)
            && is_pass_outcome (get "outcome" e))
          (records_of (or_else (record_at "evidence" raw) (record_at "evidence_pointers" raw))))

-- `firstAttentionTicket(state, goal)`
unfoldable pub first_attention_ticket : Fields → Fields → Option Fields
unfolding tickets_for_goal ticket_needs_attention
first_attention_ticket raw goal = find (ticket_needs_attention raw) (tickets_for_goal raw goal)

-- What the texts of a block are made of: the goal's title, the ticket's label and identifier, whether
-- its verdict or its start is asked for, and its status.
pub record StopBlock : Type 0 where
  pub title : Option String
  pub label : Option String
  pub ticket_id : Option String
  pub asks_verdict : Bool
  pub status : Option String

abbrev pub block_for : Fields → Option Fields → Option StopBlock
block_for goal none = none
block_for goal (some ticket) = some (record {
  title = text_at "title" goal;
  label = or_else (text_at "title" ticket) (text_at "id" ticket);
  ticket_id = text_at "id" ticket;
  asks_verdict = one_of review_ticket_statuses (text_at "status" ticket);
  status = text_at "status" ticket;
})

abbrev pub block_unless : Bool → Bool → Option StopBlock → Option StopBlock
block_unless advisory quiet block = if advisory then none else if quiet then none else block

abbrev pub stop_for : Fields → Option Fields → Option StopBlock
stop_for raw none = none
stop_for raw (some goal) =
    block_unless
      (not (opt_eq (text_at "assurance" goal) "high")
        || not (is_true (get "stop_enforcement" goal)))
      (opt_eq (text_at "status" goal) "blocked"
        || (waiting_for_human_or_external goal || tracker_unavailable raw goal))
      (block_for goal (first_attention_ticket raw goal))

abbrev pub stop_of : Option Fields → Option StopBlock
stop_of none = none
stop_of (some raw) = stop_for raw (active_goal raw)

-- `buildStopHookOutput(state)`
unfoldable pub build_stop_hook_output : Option Json → Option StopBlock
unfolding active_goal get waiting_for_human_or_external tracker_unavailable first_attention_ticket
build_stop_hook_output state = stop_of (record_of state)
