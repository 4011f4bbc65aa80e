-- ===== src/Hooks/Stop/Waiting.antt =====
-- Whether a goal waits and whether its tracker is available, as src/hooks/stop.ts asks.
use ycm_harness.Common.{
  ◌≡◌, refl, ◌↔◌, ◌⊎◌, String, Bool, true, false, not, Option, none, some, [], ◌∷◌, arith, In,
  any_iff, filter_map, is_some, or_else, or_with, and_with,
}
use ycm_harness.Hooks.Json.{bool, string, Fields, get}
use ycm_harness.Hooks.Stop.{
  text_at, record_at, first_record, backend_down, cache_down, tracker_unavailable, contains,
  join_space, waiting_words, waiting_for_human_or_external,
}
use ycm_harness.Hooks.Stop.Words.{is_true_iff, is_false_iff, is_kind_iff, Occurs, contains_iff}

-- The texts in which a goal says that it waits.
abbrev pub waiting_texts : Fields → String
waiting_texts goal = join_space (
    filter_map (λ key. text_at key goal)
      ("wait_reason" ∷ "waiting_for" ∷ "wait_state" ∷ "pause_reason" ∷ []))

-- The goal waits for a person or for something outside.
abbrev pub Waits : Fields → Type 0
Waits goal =
    ((word : String) × In word
        ("human" ∷ "external" ∷ "user" ∷ "approval" ∷ "manual" ∷ "dependency" ∷ [])
      × Occurs word (waiting_texts goal))
    ⊎ (get "waiting" goal ≡ some (bool true))

pub waiting_iff : (goal : Fields) → (waiting_for_human_or_external goal ≡ true) ↔ Waits goal
unfolding waiting_for_human_or_external
waiting_iff goal =
    or_with
      (
        λ h.
            let (w, i, e) =
              (any_iff (λ word. contains word (waiting_texts goal)) waiting_words).0 h in
            (w, i, (contains_iff w _).0 e),
        λ (w, i, o).
            (any_iff (λ word. contains word (waiting_texts goal)) waiting_words).1
              (w, i, (contains_iff w _).1 o),
      )
      (is_true_iff _)

-- A backend that is out, or a remote one that was never verified; and a cache that is out.
abbrev pub BackendDown : Option Fields → Type 0
BackendDown o =
    (b : Fields) × (o ≡ some b)
    × ((get "available" b ≡ some (bool false))
        ⊎ ((get "outage" b ≡ some (bool true))
            ⊎ (((get "kind" b ≡ some (string "github")) ⊎ (get "kind" b ≡ some (string "multica")))
                × (text_at "last_verified_at" b ≡ none))))

abbrev pub CacheDown : Option Fields → Type 0
CacheDown o =
    (c : Fields) × (o ≡ some c)
    × ((get "available" c ≡ some (bool false)) ⊎ (get "outage" c ≡ some (bool true)))

-- The tracker of the goal is not available.
abbrev pub Unavailable : Fields → Fields → Type 0
Unavailable raw goal =
    BackendDown (
      first_record (record_at "backend" goal) (record_at "ticket_backend" goal)
        (record_at "ticket_backend" raw))
    ⊎ (CacheDown (or_else (record_at "tracker_cache" raw) (record_at "ticket_cache" raw))
        ⊎ (get "tracker_unavailable" goal ≡ some (bool true)))

is_none_iff : (o : Option String) → (not (is_some o) ≡ true) ↔ (o ≡ none)
is_none_iff none = (λ h. refl, λ h. refl)
is_none_iff (some s) = (λ h. cc, λ h. cc)

-- A record that is there, and what holds of it.
of_record :
    {P : Fields → Type 0} {t : Bool} (b : Fields)
    → (t ≡ true) ↔ P b
    → (t ≡ true) ↔ ((x : Fields) × (some b ≡ some x) × P x)
of_record {P} b means = (
  λ h. (b, refl, means.0 h),
  λ (x, e, p). let same : x ≡ b = ground arith in means.1 (rw same at p),
)

backend_down_iff : (o : Option Fields) → (backend_down o ≡ true) ↔ BackendDown o
backend_down_iff none = (λ h. cc, λ (b, e, _). cc)
backend_down_iff (some b) = of_record b (
    or_with (is_false_iff _) (
      or_with (is_true_iff _)
        (and_with (or_with (is_kind_iff "github" _) (is_kind_iff "multica" _)) (is_none_iff _))))

cache_down_iff : (o : Option Fields) → (cache_down o ≡ true) ↔ CacheDown o
cache_down_iff none = (λ h. cc, λ (b, e, _). cc)
cache_down_iff (some c) = of_record c (or_with (is_false_iff _) (is_true_iff _))

pub tracker_unavailable_iff :
    (raw goal : Fields) → (tracker_unavailable raw goal ≡ true) ↔ Unavailable raw goal
unfolding tracker_unavailable
tracker_unavailable_iff raw goal =
    or_with (backend_down_iff _) (or_with (cache_down_iff _) (is_true_iff _))
