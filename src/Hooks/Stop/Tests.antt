-- ===== src/Hooks/Stop/Tests.antt =====
-- The stop hook of src/hooks/stop.ts at a concrete state.
use ycm_harness.Common.{
  none, ◌≢◌, [], ◌∷◌, returns, ◌>>=◌, ◌>>◌, ◌≡◌, refl, ◌↔◌, String, true, some, is_some, sort,
  insert, trim,
}
use ycm_harness.Continuation.Labels.{append_text, lower_char, letter}
use ycm_harness.Hooks.Json.{
  Json, bool, string, object, Fields, no_fields, field, record_of, get, records_in,
}
use ycm_harness.Hooks.Stop.{
  goal_of, active_goal, goal_id, is_ticket_of, tickets_for_goal, tracker_unavailable, starts_with,
  contains, join_space, waiting_for_human_or_external, ticket_needs_attention,
  first_attention_ticket, build_stop_hook_output,
}
use ycm_harness.Hooks.Stop.Dispatch.{
  StopPayload, StopDeps, ensure_all, follow_up, has_goal, dispatch_stop_hook,
}
use ycm_harness.Hooks.Stop.Dispatch.Allowed.{Persisted, dispatch_allows}
use ycm_harness.Hooks.Stop.Blocks.{Enforced, stop_iff}

abbrev text_field : String → String → Fields → Fields
text_field key value rest = field key (string value) rest

-- A high goal that is enforced, with one ticket to do.
abbrev sample : Json
sample = object (
    text_field "active_goal_id" "g1" (
      field "goals"
        (object (
          field "g1"
            (object (
              text_field "id" "g1" (
                text_field "status" "active" (
                  text_field "assurance" "high" (field "stop_enforcement" (bool true) no_fields)))))
            no_fields))
        (field "local_tickets"
          (object (
            field "t1"
              (object (
                text_field "id" "t1"
                  (text_field "goal_id" "g1" (text_field "status" "todo" no_fields))))
              no_fields))
          no_fields)))

sample_blocks : is_some (build_stop_hook_output (some sample)) ≡ true
unfolding goal_of active_goal goal_id is_ticket_of tickets_for_goal tracker_unavailable starts_with
    contains join_space waiting_for_human_or_external ticket_needs_attention first_attention_ticket
    build_stop_hook_output get records_in sort insert trim append_text lower_char letter
sample_blocks = refl

stop_iff_example :
    (is_some (build_stop_hook_output (some sample)) ≡ true)
    ↔ ((raw : Fields) × (record_of (some sample) ≡ some raw) × (goal : Fields) × Enforced raw goal)
stop_iff_example = stop_iff (some sample)

-- One follow-up, which is ensured as a child.
abbrev one_follow_up : StopDeps
one_follow_up = record {
  parse_follow_ups = λ message. "check the logs" ∷ [];
  turn_of = λ items. "stop-1";
  persist = λ payload turn items. returns tt;
  ensure = λ cwd item. returns (some "HAR-2");
  record_verified = λ payload turn ids. returns tt;
}

abbrev payload : StopPayload
payload = record {
  session_id = "s1";
  turn_id = none;
  cwd = "/p";
  last_assistant_message = "Follow-up: check the logs";
}

-- A goal that is not enforced.
abbrev advisory : Json
advisory = object (
    text_field "active_goal_id" "g1" (
      field "goals"
        (object (
          field "g1" (object (text_field "id" "g1" (text_field "status" "active" no_fields)))
            no_fields))
        no_fields))

advisory_allowed : dispatch_stop_hook one_follow_up (some payload) (some advisory) ≡ returns none
unfolding goal_of active_goal goal_id is_ticket_of tickets_for_goal tracker_unavailable starts_with
    contains join_space waiting_for_human_or_external ticket_needs_attention first_attention_ticket
    build_stop_hook_output get records_in sort insert trim append_text lower_char letter
    dispatch_stop_hook follow_up ensure_all ◌>>=◌ ◌>>◌
advisory_allowed = refl

dispatch_allows_example :
    (p : StopPayload) × (some payload ≡ some p)
    × (build_stop_hook_output (some advisory) ≡ none)
    × (has_goal (record_of (some advisory)) ≡ true
        → one_follow_up.parse_follow_ups p.last_assistant_message ≢ []
        → Persisted one_follow_up p)
dispatch_allows_example =
    dispatch_allows one_follow_up (some payload) (some advisory) advisory_allowed
