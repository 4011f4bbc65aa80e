-- ===== src/Hooks/Stop/Dispatch/Allowed.antt =====
-- When the dispatcher of src/hooks/stop.ts lets the agent stop.
use ycm_harness.Common.{
  ◌≡◌, ◌≢◌, refl, ap, inl, inr, String, Bool, true, false, Option, none, some, List, [], ◌∷◌, In,
  here, there, In-cons, not-In-nil, arith, Outcome, returns, throws, ◌>>=◌, ◌>>◌,
}
use ycm_harness.Hooks.Json.{Json, record_of}
use ycm_harness.Hooks.Stop.{StopBlock, build_stop_hook_output}
use ycm_harness.Hooks.Stop.Dispatch.{
  StopPayload, StopDeps, StopOutput, StopFault, one_more, ensure_all, recorded, follow_up,
  stop_only, followed, turn_name, has_goal, dispatched, dispatch_stop_hook,
}

-- The follow-ups of the message are persisted, each has a verified continuation, and these are
-- recorded for the turn.
pub record Persisted (deps : StopDeps) (payload : StopPayload) : Type 0 where
  pub turn : String
  pub ids : List String
  pub persisted :
      deps.persist payload turn (deps.parse_follow_ups payload.last_assistant_message) ≡ returns tt
  pub ensured :
      (text : String)
      → In text (deps.parse_follow_ups payload.last_assistant_message)
      → (id : String) × (deps.ensure payload.cwd text ≡ returns (some id)) × In id ids
  pub verified : deps.record_verified payload turn ids ≡ returns tt

then_returned :
    (o : Outcome String (Unit {0})) → (o >> returns true) ≡ returns true → o ≡ returns tt
unfolding ◌>>◌ ◌>>=◌
then_returned (returns u) h = refl
then_returned (throws c) h = cc

stop_only-none : (o : Option StopBlock) → stop_only o ≡ none → o ≡ none
stop_only-none none h = refl
stop_only-none (some b) h = cc

followed-none :
    (o : Outcome String Bool) (stop : Option StopBlock)
    → followed o stop ≡ none
    → (o ≡ returns true) × (stop ≡ none)
followed-none (throws c) stop h = cc
followed-none (returns false) stop h = cc
followed-none (returns true) stop h = (refl, stop_only-none stop h)

returned_none :
    (o : Option StopOutput)
    → ◌≡◌ {A = Outcome StopFault (Option StopOutput)} (returns o) (returns none)
    → o ≡ none
returned_none o h = ground arith

module _ (deps : StopDeps) (payload : StopPayload) where
  one_more-some :
      (found : Option String) (rest : Outcome String (Option (List String))) (ids : List String)
      → one_more found rest ≡ returns (some ids)
      → (id : String) × (later : List String) × (found ≡ some id)
        × (rest ≡ returns (some later))
        × (ids ≡ id ∷ later)
  one_more-some none rest ids h = cc
  one_more-some (some id) (throws e) ids h = cc
  one_more-some (some id) (returns none) ids h = cc
  one_more-some (some id) (returns (some later)) ids h = (id, later, refl, refl, ground arith)

  first_ensured :
      (o : Outcome String (Option String)) (rest : Outcome String (Option (List String)))
      (ids : List String)
      → (o >>= λ found. one_more found rest) ≡ returns (some ids)
      → (id : String) × (later : List String) × (o ≡ returns (some id))
        × (rest ≡ returns (some later))
        × (ids ≡ id ∷ later)
  unfolding ◌>>=◌
  first_ensured (throws e) rest ids h = cc
  first_ensured (returns found) rest ids h =
      let (id, later, e, e', same) = one_more-some found rest ids h in
      (id, later, ap returns e, e', same)

  all_ensured :
      (items ids : List String)
      → ensure_all deps payload.cwd items ≡ returns (some ids)
      → (text : String) → In text items
      → (id : String) × (deps.ensure payload.cwd text ≡ returns (some id)) × In id ids
  unfolding ensure_all
  all_ensured [] ids h text i = absurd (not-In-nil i)
  all_ensured (t ∷ items) ids h text i =
      let (id, later, e, e', same) = first_ensured _ _ ids h in
      elim (In-cons i) [
        | inl is ↦ (id, rw is e, rw same here)
        | inr j ↦ let (id', f, k) = all_ensured items later e' text j in (id', f, rw same (there k))
      ]

  follow_up-returns :
      (turn : String)
      → follow_up deps payload turn (deps.parse_follow_ups payload.last_assistant_message)
        ≡ returns true
      → Persisted deps payload
  unfolding follow_up ◌>>=◌ ◌>>◌
  follow_up-returns turn h =
      go (deps.persist payload turn items) refl (ensure_all deps payload.cwd items) refl h
    where
      items : List String
      items = deps.parse_follow_ups payload.last_assistant_message

      go :
          (a : Outcome String (Unit {0}))
          → deps.persist payload turn items ≡ a
          → (b : Outcome String (Option (List String))) → ensure_all deps payload.cwd items ≡ b
          → (a >> (b >>= recorded deps payload turn)) ≡ returns true
          → Persisted deps payload
      go (throws c) p b e q = cc
      go (returns u) p (throws c) e q = cc
      go (returns u) p (returns none) e q = cc
      go (returns u) p (returns (some ids)) e q = record {
        turn = turn;
        ids = ids;
        persisted = p;
        ensured = all_ensured items ids e;
        verified = then_returned (deps.record_verified payload turn ids) q;
      }

  dispatched-none :
      (goal : Bool) (items : List String) (stop : Option StopBlock)
      → dispatched deps payload goal items stop ≡ none
      → (stop ≡ none)
        × (goal ≡ true
            → items ≢ []
            → follow_up deps payload (turn_name deps payload items) items ≡ returns true)
  dispatched-none false items stop h = (stop_only-none stop h, λ q. cc)
  dispatched-none true [] stop h = (stop_only-none stop h, λ q n. absurd (n refl))
  dispatched-none true (i ∷ items) stop h =
      let (done, quiet) = followed-none _ stop h in (quiet, λ q n. done)

-- The dispatcher lets the agent stop only if the stop hook does not block and, when there are an
-- active goal and follow-ups in the last message, these were persisted, each has a verified
-- continuation, and all of these were recorded for the turn.
pub dispatch_allows :
    (deps : StopDeps) (raw : Option StopPayload) (state : Option Json)
    → dispatch_stop_hook deps raw state ≡ returns none
    → (payload : StopPayload) × (raw ≡ some payload)
      × (build_stop_hook_output state ≡ none)
      × (has_goal (record_of state) ≡ true
          → deps.parse_follow_ups payload.last_assistant_message ≢ []
          → Persisted deps payload)
unfolding dispatch_stop_hook
dispatch_allows deps none state h = cc
dispatch_allows deps (some payload) state h =
    let (quiet, done) = dispatched-none deps payload _ _ _ (returned_none _ h) in
    (
      payload,
      refl,
      quiet,
      λ goal some_items. follow_up-returns deps payload _ (done goal some_items),
    )
