-- ===== src/Hooks/Stop/Dispatch.antt =====
-- src/hooks/stop.ts: the follow-ups that are persisted before the stop hook answers.
pub mod Allowed
use ycm_harness.Common.{
  ◌≡◌, refl, ◌⊎◌, inl, inr, String, Bool, true, false, Option, none, some, List, [], ◌∷◌, In, here,
  there, In-cons, not-In-nil, is_empty, is_some, arith, Option-cases, Outcome, returns, throws,
  ◌>>=◌, ◌>>◌, or_else,
}
use ycm_harness.Hooks.Json.{Json, Fields, record_of}
use ycm_harness.Hooks.Stop.{active_goal, StopBlock, build_stop_hook_output}

-- `StopPayloadSchema`, of the fields that are read; no message is the empty one.
pub record StopPayload : Type 0 where
  pub session_id : String
  pub turn_id : Option String
  pub cwd : String
  pub last_assistant_message : String

-- What the dispatcher calls: the parser of follow-ups, the digest of the items in a turn's name, and
-- the functions of src/autonomy that persist, ensure and record them, with the errors' codes.
pub record StopDeps : Type 0 where
  pub parse_follow_ups : String → List String
  pub turn_of : List String → String
  pub persist : StopPayload → String → List String → Outcome String (Unit {0})
  pub ensure : String → String → Outcome String (Option String)
  pub record_verified : StopPayload → String → List String → Outcome String (Unit {0})

pub data StopOutput : Type 0 where
  follow_up_block : String → StopOutput
  stop_block : StopBlock → StopOutput

pub data StopFault : Type 0 where
  invalid_stop_payload : StopFault

abbrev pub one_more :
    Option String → Outcome String (Option (List String)) → Outcome String (Option (List String))
one_more none rest = returns none
one_more (some id) (throws e) = throws e
one_more (some id) (returns none) = returns none
one_more (some id) (returns (some ids)) = returns (some (id ∷ ids))

-- The loop over the items: none when an item has no binding.
unfoldable pub ensure_all : StopDeps → String → List String → Outcome String (Option (List String))
unfolding ◌>>=◌
ensure_all deps cwd [] = returns (some [])
ensure_all deps cwd (text ∷ items) =
    let rest = ensure_all deps cwd items in deps.ensure cwd text >>= λ found. one_more found rest

abbrev pub recorded : StopDeps → StopPayload → String → Option (List String) → Outcome String Bool
recorded deps payload turn none = returns false
recorded deps payload turn (some ids) = deps.record_verified payload turn ids >> returns true

-- The `try` block: false when an item has no binding.
unfoldable pub follow_up : StopDeps → StopPayload → String → List String → Outcome String Bool
unfolding ensure_all ◌>>=◌ ◌>>◌
follow_up deps payload turn items =
    deps.persist payload turn items
    >> (ensure_all deps payload.cwd items >>= recorded deps payload turn)

abbrev pub stop_only : Option StopBlock → Option StopOutput
stop_only none = none
stop_only (some b) = some (stop_block b)

abbrev pub followed : Outcome String Bool → Option StopBlock → Option StopOutput
followed (throws code) stop = some (follow_up_block code)
followed (returns false) stop = some (follow_up_block "binding_missing")
followed (returns true) stop = stop_only stop

abbrev pub turn_name : StopDeps → StopPayload → List String → String
turn_name deps payload items = elim payload.turn_id [ none ↦ deps.turn_of items | some turn ↦ turn ]

abbrev pub has_goal : Option Fields → Bool
has_goal none = false
has_goal (some raw) = is_some (active_goal raw)

abbrev pub dispatched :
    StopDeps → StopPayload → Bool → List String → Option StopBlock → Option StopOutput
dispatched deps payload false items stop = stop_only stop
dispatched deps payload true [] stop = stop_only stop
dispatched deps payload true (i ∷ items) stop =
    followed (follow_up deps payload (turn_name deps payload (i ∷ items)) (i ∷ items)) stop

-- `dispatchStopHook(rawPayload, state, deps)`: a payload that the schema refuses is none.
unfoldable pub dispatch_stop_hook :
    StopDeps → Option StopPayload → Option Json → Outcome StopFault (Option StopOutput)
unfolding active_goal follow_up build_stop_hook_output
dispatch_stop_hook deps none state = throws invalid_stop_payload
dispatch_stop_hook deps (some payload) state = returns (
    dispatched deps payload (has_goal (record_of state))
      (deps.parse_follow_ups payload.last_assistant_message) (build_stop_hook_output state))
