-- ===== src/Hooks/Stop/Attention.antt =====
-- Which tickets of a goal are its own and which need attention, as src/hooks/stop.ts asks.
use ycm_harness.Common.{
  ◌≡◌, refl, sym, ◌∙◌, ◌↔◌, ◌⊎◌, inl, inr, String, Bool, true, false, not, ◌&&◌, ◌||◌, Option, none,
  some, List, [], ◌∷◌, arith, In, In-append, In-append_left, In-append_right, any, any_iff, opt_eq,
  opt_eq_lem, or_else, or_with, and_with, not_with, Option-cases, if◌then◌else◌,
}
use ycm_harness.Hooks.Json.{bool, string, Fields, get, records_of}
use ycm_harness.Hooks.Stop.{
  text_at, record_at, one_of, goal_id, is_text, phase_goal, is_ticket_of,
  actionable_ticket_statuses, review_ticket_statuses, or_todo, same_text, is_pass_outcome,
  ticket_needs_attention,
}
use ycm_harness.Hooks.Stop.Words.{Among, one_of_iff, is_true_iff, is_kind_iff, same_text_iff}

-- The ticket names the goal, or a phase of the goal.
abbrev pub Owns : Fields → Fields → Fields → Type 0
Owns raw goal ticket =
    (id : String) × (or_else (text_at "id" goal) (text_at "active_goal_id" raw) ≡ some id)
    × ((text_at "goal_id" ticket ≡ some id)
        ⊎ ((phase : String) × (phases p : Fields) × (text_at "phase_id" ticket ≡ some phase)
            × (record_at "phases" raw ≡ some phases)
            × (record_at phase phases ≡ some p)
            × (text_at "goal_id" p ≡ some id)))

-- The evidence of the state.
abbrev pub evidence_in : Fields → List Fields
evidence_in raw =
    records_of (or_else (record_at "evidence" raw) (record_at "evidence_pointers" raw))

passing_iff :
    (raw ticket : Fields)
    → (any
          (λ e.
            same_text (text_at "ticket_id" e) (text_at "id" ticket)
            && is_pass_outcome (get "outcome" e))
          (evidence_in raw)
        ≡ true)
      ↔ ((e : Fields) × In e (evidence_in raw)
          × ((text_at "ticket_id" e ≡ text_at "id" ticket)
              × (get "outcome" e ≡ some (string "pass"))))
passing_iff raw ticket =
    let found = any_iff _ (evidence_in raw) in
    (
      λ h. let (e, i, q) = found.0 h in (e, i, (passes e).0 q),
      λ (e, i, q). found.1 (e, i, (passes e).1 q),
    )
  where
    passes :
        (e : Fields)
        → ((same_text (text_at "ticket_id" e) (text_at "id" ticket)
              && is_pass_outcome (get "outcome" e))
            ≡ true)
          ↔ ((text_at "ticket_id" e ≡ text_at "id" ticket)
              × (get "outcome" e ≡ some (string "pass")))
    passes e = and_with (same_text_iff _ _) (is_kind_iff "pass" _)

-- The ticket is open, in review, or done with code changes that no passing evidence is for.
abbrev pub NeedsAttention : Fields → Fields → Type 0
NeedsAttention raw ticket =
    ((text_at "status" ticket ≡ none)
      ⊎ Among ("todo" ∷ "pending" ∷ "active" ∷ "in_progress" ∷ "in_review" ∷ "in-review" ∷ [])
          (text_at "status" ticket))
    ⊎ ((text_at "status" ticket ≡ some "done")
        × (get "code_changed" ticket ≡ some (bool true))
        × (((e : Fields) × In e (evidence_in raw)
              × ((text_at "ticket_id" e ≡ text_at "id" ticket)
                  × (get "outcome" e ≡ some (string "pass"))))
            → ⊥))

phase_iff :
    (o : Option String) (ps : Option Fields) (id : String)
    → (is_text (phase_goal o ps) (some id) ≡ true) ↔ (
        (phase : String) × (phases p : Fields) × (o ≡ some phase)
        × (ps ≡ some phases)
        × (record_at phase phases ≡ some p)
        × (text_at "goal_id" p ≡ some id))
phase_iff none ps id = (λ h. cc, λ (phase, phases, p, e, e', f, g). cc)
phase_iff (some phase) none id = (λ h. cc, λ (k, phases, p, e, e', f, g). cc)
phase_iff (some phase) (some phases) id = elim (Option-cases (record_at phase phases)) [
  | inl lost ↦
      rw (phase_goal, lost)
        (
          λ h. cc,
          λ (k, ks, p, e, e', found, g).
              let same_k : phase ≡ k = ground arith in
              let same_ks : phases ≡ ks = ground arith in
              absurd (no p (sym lost ∙ rw (same_k, same_ks) found)),
        )
  | inr (p, found) ↦
      rw (phase_goal, found)
        (
          λ h. (phase, phases, p, refl, refl, found, (opt_eq_lem _ id).0 h),
          λ (k, ks, q, e, e', found', named).
              let same_k : phase ≡ k = ground arith in
              let same_ks : phases ≡ ks = ground arith in
              let at : record_at phase phases ≡ some q = rw (same_k, same_ks) found' in
              let same : p ≡ q = some_inj (sym found ∙ at) in (opt_eq_lem _ id).1 (rw same named),
        )
]
  where
    no : (p : Fields) → none ≡ some p → ⊥
    no p q = cc

    some_inj : {x y : Fields} → some x ≡ some y → x ≡ y
    some_inj q = ground arith

owned_iff :
    (raw ticket : Fields) (o : Option String)
    → (is_ticket_of raw o ticket ≡ true) ↔ (
        (id : String) × (o ≡ some id)
        × ((text_at "goal_id" ticket ≡ some id)
            ⊎ ((phase : String) × (phases p : Fields) × (text_at "phase_id" ticket ≡ some phase)
                × (record_at "phases" raw ≡ some phases)
                × (record_at phase phases ≡ some p)
                × (text_at "goal_id" p ≡ some id))))
unfolding is_ticket_of
owned_iff raw ticket none = (λ h. cc, λ (id, e, _). cc)
owned_iff raw ticket (some id) =
    let means = or_with (opt_eq_lem (text_at "goal_id" ticket) id) (phase_iff _ _ id) in
    (
      λ h. (id, refl, means.0 h),
      λ (k, e, p). let same : k ≡ id = ground arith in means.1 (rw same at p),
    )

pub is_ticket_of_iff :
    (raw goal ticket : Fields)
    → (is_ticket_of raw (goal_id raw goal) ticket ≡ true) ↔ Owns raw goal ticket
unfolding goal_id
is_ticket_of_iff raw goal ticket = owned_iff raw ticket (goal_id raw goal)

branch_iff :
    {P Q R S : Type 0} {a d c n : Bool}
    → (a ≡ true) ↔ P
    → (d ≡ true) ↔ Q
    → (c ≡ true) ↔ R
    → (n ≡ true) ↔ S
    → ((if a then true else if not d then false else if not c then false else n) ≡ true)
      ↔ (P ⊎ (Q × R × S))
branch_iff {a = true} p q r s = (λ h. inl (p.0 refl), λ h. refl)
branch_iff {a = false} {d = false} p q r s =
    (λ h. cc, λ h. elim h [ inl x ↦ cc (p.1 x) | inr (y, z, w) ↦ cc (q.1 y) ])
branch_iff {a = false} {d = true} {c = false} p q r s =
    (λ h. cc, λ h. elim h [ inl x ↦ cc (p.1 x) | inr (y, z, w) ↦ cc (r.1 z) ])
branch_iff {a = false} {d = true} {c = true} p q r s = (
  λ h. inr (q.0 refl, r.0 refl, s.0 h),
  λ h. elim h [ inl x ↦ cc (p.1 x) | inr (y, z, w) ↦ s.1 w ],
)

open_iff :
    (o : Option String)
    → ((one_of actionable_ticket_statuses (or_todo o) || one_of review_ticket_statuses (or_todo o))
        ≡ true)
      ↔ ((o ≡ none)
          ⊎ Among
              ("todo" ∷ "pending" ∷ "active" ∷ "in_progress" ∷ "in_review" ∷ "in-review" ∷ [])
              o)
open_iff none = (λ h. inl refl, λ h. refl)
open_iff (some s) =
    let means =
      or_with (one_of_iff actionable_ticket_statuses (some s))
        (one_of_iff review_ticket_statuses (some s)) in
    (
      λ h. elim (means.0 h) [
        | inl (w, e, i) ↦ inr (w, e, In-append_left review_ticket_statuses i)
        | inr (w, e, i) ↦ inr (w, e, In-append_right actionable_ticket_statuses i)
      ],
      λ h. elim h [
        | inl e ↦ cc
        | inr (w, e, i) ↦ elim (In-append actionable_ticket_statuses review_ticket_statuses i) [
          | inl j ↦ means.1 (inl (w, e, j))
          | inr j ↦ means.1 (inr (w, e, j))
        ]
      ],
    )

done_iff : (o : Option String) → (opt_eq (or_todo o) "done" ≡ true) ↔ (o ≡ some "done")
done_iff none = (λ h. cc, λ h. cc)
done_iff (some s) = opt_eq_lem (some s) "done"

pub attention_iff :
    (raw ticket : Fields) → (ticket_needs_attention raw ticket ≡ true) ↔ NeedsAttention raw ticket
unfolding ticket_needs_attention
attention_iff raw ticket =
    branch_iff (open_iff (text_at "status" ticket)) (done_iff (text_at "status" ticket))
      (is_true_iff _) (not_with (passing_iff raw ticket))
