-- ===== src/Hooks/Stop/Blocks.antt =====
-- When the stop hook of src/hooks/stop.ts blocks.
use ycm_harness.Common.{
  ◌≡◌, ◌≢◌, refl, sym, ◌∙◌, ◌↔◌, inl, inr, Bool, true, false, not, ◌||◌, Option, none, some, List,
  find-some, find-none, In-filter, In-filter_of, In, In-sort, In-sort_of, Bool-cases, Option-cases,
  opt_eq, opt_eq_lem, false_with, is_some, differ,
}
use ycm_harness.Hooks.Json.{Json, bool, Fields, record_of, get, records_of}
use ycm_harness.Hooks.Stop.Words.{is_true_iff}
use ycm_harness.Hooks.Stop.Asked.{ActiveGoal, active_goal_iff}
use ycm_harness.Hooks.Stop.Waiting.{Waits, waiting_iff, Unavailable, tracker_unavailable_iff}
use ycm_harness.Hooks.Stop.Attention.{Owns, is_ticket_of_iff, NeedsAttention, attention_iff}
use ycm_harness.Hooks.Stop.{
  text_at, record_at, first_record, active_goal, goal_id, is_ticket_of, tickets_for_goal,
  ticket_needs_attention, first_attention_ticket, block_for, StopBlock, block_unless, stop_for,
  stop_of, build_stop_hook_output,
}

-- The records of the tickets of a state.
abbrev pub tickets_of : Fields → List Fields
tickets_of raw =
    records_of (
      first_record (record_at "local_tickets" raw) (record_at "tickets" raw)
        (record_at "tasks" raw))

-- What is asked for a block on the goal: a high and enforced goal that is neither over, nor blocked, nor
-- waiting, whose tracker is available, with a ticket of its own that needs attention.
pub record Enforced (raw goal : Fields) : Type 0 where
  pub active : ActiveGoal raw goal
  pub high : text_at "assurance" goal ≡ some "high"
  pub enforcing : get "stop_enforcement" goal ≡ some (bool true)
  pub not_blocked : text_at "status" goal ≢ some "blocked"
  pub not_waiting : Waits goal → ⊥
  pub available : Unavailable raw goal → ⊥
  pub ticket : Fields
  pub stored : In ticket (tickets_of raw)
  pub owned : Owns raw goal ticket
  pub attention : NeedsAttention raw ticket

is_some-found : {A : Type 0} (o : Option A) → is_some o ≡ true → (a : A) × (o ≡ some a)
is_some-found none h = cc
is_some-found (some a) h = (a, refl)

tickets_for_goal_iff :
    (raw goal t : Fields)
    → In t (tickets_for_goal raw goal)
      ↔ (In t (tickets_of raw) × (is_ticket_of raw (goal_id raw goal) t ≡ true))
unfolding tickets_for_goal
tickets_for_goal_iff raw goal t = (
  λ i. In-filter _ (tickets_of raw) (In-sort _ _ i),
  λ p. In-sort_of _ _ (In-filter_of _ (p.0) (p.1)),
)

block_for-some : (goal t : Fields) → is_some (block_for goal (some t)) ≡ true
block_for-some goal t = refl

attention-found :
    (raw goal : Fields)
    → is_some (block_for goal (first_attention_ticket raw goal)) ≡ true
    → (t : Fields) × In t (tickets_for_goal raw goal) × (ticket_needs_attention raw t ≡ true)
unfolding first_attention_ticket
attention-found raw goal h = elim (Option-cases (first_attention_ticket raw goal)) [
  | inl none_found ↦ let e = rw none_found at h in cc
  | inr (t, found) ↦
      let (i, q) = find-some (ticket_needs_attention raw) (tickets_for_goal raw goal) t found in
      (t, i, q)
]

attention_of :
    (raw goal t : Fields)
    → In t (tickets_for_goal raw goal)
    → ticket_needs_attention raw t ≡ true
    → is_some (block_for goal (first_attention_ticket raw goal)) ≡ true
unfolding first_attention_ticket
attention_of raw goal t i q = elim (Option-cases (first_attention_ticket raw goal)) [
  | inr (u, found) ↦ rw found refl
  | inl none_found ↦ absurd (
      differ
        (sym (find-none (ticket_needs_attention raw) (tickets_for_goal raw goal) none_found i) ∙ q))
]

block_unless-some :
    (advisory quiet : Bool) (o : Option StopBlock)
    → is_some (block_unless advisory quiet o) ≡ true
    → (advisory ≡ false) × (quiet ≡ false) × (is_some o ≡ true)
block_unless-some true quiet o h = cc
block_unless-some false true o h = cc
block_unless-some false false o h = (refl, refl, h)

or-eq-false : (b c : Bool) → (b || c) ≡ false → (b ≡ false) × (c ≡ false)
or-eq-false true c h = cc
or-eq-false false c h = (refl, h)

not-eq-false : (b : Bool) → not b ≡ false → b ≡ true
not-eq-false true h = refl
not-eq-false false h = cc

module _ (raw goal : Fields) (active : active_goal raw ≡ some goal) where
  stop-Enforced : is_some (stop_for raw (some goal)) ≡ true → Enforced raw goal
  stop-Enforced h =
      let (strict, busy, blocks) = block_unless-some _ _ _ h in
      let (high, enforcing) = or-eq-false _ _ strict in
      let (going, rest) = or-eq-false _ _ busy in
      let (free, up) = or-eq-false _ _ rest in
      let (t, i, q) = attention-found raw goal blocks in
      let (stored, owned) = (tickets_for_goal_iff raw goal t).0 i in
      record {
        active = (active_goal_iff raw goal).0 active;
        high = (opt_eq_lem _ "high").0 (not-eq-false _ high);
        enforcing = (is_true_iff _).0 (not-eq-false _ enforcing);
        not_blocked = λ e. differ (sym going ∙ (opt_eq_lem _ "blocked").1 e);
        not_waiting = (false_with (waiting_iff goal)).0 free;
        available = (false_with (tracker_unavailable_iff raw goal)).0 up;
        ticket = t;
        stored = stored;
        owned = (is_ticket_of_iff raw goal t).0 owned;
        attention = (attention_iff raw t).0 q;
      }

Enforced-stop : (raw goal : Fields) → Enforced raw goal → is_some (stop_for raw (some goal)) ≡ true
Enforced-stop raw goal f =
    let high = (opt_eq_lem (text_at "assurance" goal) "high").1 f.high in
    let on = (is_true_iff (get "stop_enforcement" goal)).1 f.enforcing in
    let going : opt_eq (text_at "status" goal) "blocked" ≡ false =
      elim (Bool-cases (opt_eq (text_at "status" goal) "blocked")) [
        | inl e ↦ absurd (f.not_blocked ((opt_eq_lem _ "blocked").0 e))
        | inr e ↦ e
      ] in
    let free = (false_with (waiting_iff goal)).1 f.not_waiting in
    let up = (false_with (tracker_unavailable_iff raw goal)).1 f.available in
    let owned = (is_ticket_of_iff raw goal f.ticket).1 f.owned in
    rw (high, on, going, free, up)
      (attention_of raw goal f.ticket ((tickets_for_goal_iff raw goal f.ticket).1 (f.stored, owned))
        ((attention_iff raw f.ticket).1 f.attention))

-- The stop hook blocks exactly when the state is a record whose active goal (the named one, or else
-- the first one with a goal's status) is not over, has high assurance and is enforced, is not
-- blocked, has none of the waiting words in its texts and no waiting flag, has a tracker that is not
-- out, and has a ticket, which names the goal or a phase of it, that is open, in review, or done
-- with code changes and no passing evidence.
pub stop_iff :
    (state : Option Json)
    → (is_some (build_stop_hook_output state) ≡ true)
      ↔ ((raw : Fields) × (record_of state ≡ some raw) × (goal : Fields) × Enforced raw goal)
unfolding build_stop_hook_output
stop_iff state = (λ h. blocks (record_of state) refl h, enforced)
  where
    goal_blocks :
        (raw : Fields) (o : Option Fields)
        → active_goal raw ≡ o
        → is_some (stop_for raw o) ≡ true
        → (goal : Fields) × Enforced raw goal
    goal_blocks raw none e h = cc
    goal_blocks raw (some goal) e h = (goal, stop-Enforced raw goal e h)

    blocks :
        (o : Option Fields)
        → record_of state ≡ o
        → is_some (stop_of o) ≡ true
        → (raw : Fields) × (record_of state ≡ some raw) × (goal : Fields) × Enforced raw goal
    blocks none e h = cc
    blocks (some raw) e h =
        let (goal, f) = goal_blocks raw (active_goal raw) refl h in (raw, e, goal, f)

    enforced :
        (raw : Fields) × (record_of state ≡ some raw) × (goal : Fields) × Enforced raw goal
        → is_some (stop_of (record_of state)) ≡ true
    enforced (raw, e, goal, f) =
        rw (e, (active_goal_iff raw goal).1 f.active) (Enforced-stop raw goal f)
