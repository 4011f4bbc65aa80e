-- ===== src/Continuation/Policy/Selection.antt =====
-- The loop over the invocations in evaluateExecutionPolicy, against what it asks of each.
use Prim.Native.String as Text
use text.Mathlib.TextEquality.{Char-path}
use ycm_harness.Common.{
  ℕ, suc, ◌≤◌, ◌≡◌, refl, ◌↔◌, ◌⊎◌, inl, inr, String, Bool, true, false, not, ◌&&◌, ◌||◌,
  and-eq-true_iff, Option, none, some, List, [], ◌∷◌, arith, eqb, eqb_iff, ◌==◌, eq_iff, eq_refl,
  All, all, In, find, find-some, filter, In-filter_iff, head?, is_some, push_if, push_if-nil,
  append_iff, push_iff, Bool-cases, Option-cases, if◌then◌else◌, sort, head-sort-first,
  head-sort-In, head-sort-none, code_le, code_total, code_trans, Distinct,
}
use ycm_harness.Continuation.Labels.{safe_label, unique_sorted, join_nul}
use ycm_harness.Continuation.Labels.Unique.{unique_sorted-labels}
use ycm_harness.Continuation.Labels.Join.{join_nul-inj}
use ycm_harness.Continuation.Policy.{
  PolicyModel, ModelInvocation, PolicyTrace, Escalation, is_invocation,
}
use ycm_harness.Continuation.Policy.Evaluate.{
  PolicyReason, auxiliary_judge_forbidden, model_not_cheapest_capable,
  model_escalation_reason_missing, model_tie_break_mismatch, model_requirements_mismatch,
  recursive_agent_forbidden, model_role_invalid, has_capabilities, by_id, other_id,
  selection_reasons, model_reasons, invocation_reasons, invocations_reasons,
}
use ycm_harness.Continuation.Policy.Models.{ids, Capable, Capable-iff, above_iff, find-only}

code_antisym : (s t : String) → code_le s t ≡ true → code_le t s ≡ true → s ≡ t
code_antisym Text.[] Text.[] p q = refl
code_antisym Text.[] (Text.◌∷◌ d t) p q = cc
code_antisym (Text.◌∷◌ c s) Text.[] p q = cc
code_antisym (Text.◌∷◌ c s) (Text.◌∷◌ d t) p q =
    let head = Char-path c d (ground arith) in
    let tail = code_antisym s t (ground arith) (ground arith) in cc

-- The model that an invocation may use: configured under its id and capable; the cheapest of the
-- roster unless the invocation gives a reason to escalate; and the first by id among the capable
-- models of its rank.
pub record MaySelect (roster : List PolicyModel) (required : List String) (i : ModelInvocation)
    (m : PolicyModel) : Type 0 where
  pub configured : In m roster
  pub named : m.model_id ≡ i.model_id
  pub capable : Capable required m
  pub cheapest :
      i.escalation_reason ≡ none
      → (other : PolicyModel) → In other roster
      → m.cost_rank ≤ other.cost_rank
  pub first :
      (other : PolicyModel)
      → In other roster
      → Capable required other
      → other.cost_rank ≡ m.cost_rank
      → code_le m.model_id other.model_id ≡ true

-- Which invocations the policy takes.
pub record MayInvoke (t : PolicyTrace) (i : ModelInvocation) : Type 0 where
  pub role : (i.role ≡ "executor") ⊎ (i.role ≡ "correction")
  pub alone : i.recursive ≡ false
  pub requirements : unique_sorted i.required_capabilities ≡ t.required_capabilities
  pub selected : (m : PolicyModel) × MaySelect t.model_roster t.required_capabilities i m

-- The first by id of some models, of which the selected one is a member.
tie_iff :
    (m : PolicyModel) (ms : List PolicyModel)
    → In m ms
    → (other_id m (head? (sort by_id ms)) ≡ false)
      ↔ ((x : PolicyModel) → In x ms → code_le m.model_id x.model_id ≡ true)
tie_iff m ms i = elim (Option-cases (head? (sort by_id ms))) [
  | inl empty ↦ absurd (head-sort-none by_id ms empty i)
  | inr (h, found) ↦
      let least =
        head-sort-first by_id (λ x y. code_total x.model_id y.model_id)
          (λ x y z. code_trans x.model_id y.model_id z.model_id) ms h found in
      rw found (
        λ e x j.
            let same : m.model_id ≡ h.model_id =
              (eq_iff m.model_id h.model_id).0
                (elim (Bool-cases (m.model_id == h.model_id)) [ inl s ↦ s | inr n ↦ cc ]) in
            rw same (least x j),
        λ f.
            let same =
              code_antisym m.model_id h.model_id (f h (head-sort-In by_id ms h found))
                (least m i) in
            rw (same, eq_refl) refl,
      )
]

escalated_iff :
    {P : Type 0} (b : Bool) (o : Option Escalation)
    → (b ≡ false) ↔ P
    → ((b && not (is_some o)) ≡ false) ↔ (o ≡ none → P)
escalated_iff true none p = (λ h. cc, λ f. p.1 (f refl))
escalated_iff false none p = (λ h e. p.0 refl, λ f. refl)
escalated_iff true (some e) p = (λ h e'. cc, λ f. refl)
escalated_iff false (some e) p = (λ h e'. cc, λ f. refl)

Capable-In_iff :
    (required : List String) (roster : List PolicyModel) (x : PolicyModel)
    → In x (filter (has_capabilities required) roster) ↔ (In x roster × Capable required x)
Capable-In_iff required roster x = (
  λ i. let (a, b) = (In-filter_iff _ roster).0 i in (a, (Capable-iff required x).0 b),
  λ (a, b). (In-filter_iff _ roster).1 (a, (Capable-iff required x).1 b),
)

selection_iff :
    (t : PolicyTrace) (index : ℕ) (i : ModelInvocation) (m : PolicyModel)
    → In m t.model_roster
    → m.model_id ≡ i.model_id
    → Capable t.required_capabilities m
    → (selection_reasons t index i m ≡ []) ↔ MaySelect t.model_roster t.required_capabilities i m
unfolding selection_reasons
selection_iff t index i m configured named capable =
    let inside = Capable-In_iff t.required_capabilities t.model_roster in
    let peers = filter (has_capabilities t.required_capabilities) t.model_roster in
    let tied = filter (λ x. eqb x.cost_rank m.cost_rank) peers in
    let cheap_peer = escalated_iff _ i.escalation_reason (above_iff m.cost_rank peers) in
    let cheap = escalated_iff _ i.escalation_reason (above_iff m.cost_rank t.model_roster) in
    let self : In m tied =
      (In-filter_iff _ peers).1 ((inside m).1 (configured, capable), (eqb_iff _ _).1 refl) in
    let all_three = append_iff (push_iff (model_not_cheapest_capable index) cheap_peer) (
      append_iff (push_iff (model_escalation_reason_missing index) cheap)
        (push_iff (model_tie_break_mismatch index) (tie_iff m tied self))) in
    (
      λ h.
          let (a, (b, c)) = all_three.0 h in
          record {
            configured = configured;
            named = named;
            capable = capable;
            cheapest = b;
            first =
                λ x j p e. c x ((In-filter_iff _ peers).1 ((inside x).1 (j, p), (eqb_iff _ _).1 e));
          },
      λ s. all_three.1 (
        λ e x j. s.cheapest e x (((inside x).0 j).0),
        (
          s.cheapest,
          λ x j.
              let (a, b) = (In-filter_iff _ peers).0 j in
              let (c, d) = (inside x).0 a in s.first x c d ((eqb_iff _ _).0 b),
        ),
      ),
    )

model_iff :
    (t : PolicyTrace) (index : ℕ) (i : ModelInvocation)
    → Distinct (ids t.model_roster)
    → (model_reasons t index i ≡ [])
      ↔ ((m : PolicyModel) × MaySelect t.model_roster t.required_capabilities i m)
unfolding model_reasons
model_iff t index i d = (
  λ h. elim (Option-cases (find (λ m. m.model_id == i.model_id) t.model_roster)) [
    | inl missing ↦ absurd (not_empty (rw (missing, model_reasons) at h))
    | inr (m, found) ↦
        let (j, e) = find-some _ t.model_roster m found in
        elim (Bool-cases (has_capabilities t.required_capabilities m)) [
          | inl able ↦ (
            m,
            (selection_iff t index i m j ((eq_iff _ _).0 e)
                  ((Capable-iff t.required_capabilities m).0 able)).0
                (rw (found, able, model_reasons) at h),
          )
          | inr unable ↦ absurd (not_empty (rw (found, unable, model_reasons) at h))
        ]
  ],
  λ (m, s).
      let found = find-only i.model_id m t.model_roster d s.configured s.named in
      rw (found, (Capable-iff t.required_capabilities m).1 s.capable, model_reasons)
        ((selection_iff t index i m s.configured s.named s.capable).1 s),
)
  where
    not_empty : {r : PolicyReason} → r ∷ [] ≡ [] → ⊥
    not_empty e = cc

role_iff :
    (index : ℕ) (role : String)
    → ((if role == "judge" || role == "auxiliary_judge"
          then auxiliary_judge_forbidden index ∷ []
          else push_if
              (not (role == "executor") && not (role == "correction"))
              (model_role_invalid index))
        ≡ [])
      ↔ ((role ≡ "executor") ⊎ (role ≡ "correction"))
role_iff index role = (
  λ h. elim (Bool-cases (role == "executor")) [
    | inl e ↦ inl ((eq_iff _ _).0 e)
    | inr n ↦ elim (Bool-cases (role == "correction")) [
      | inl e ↦ inr ((eq_iff _ _).0 e)
      | inr m ↦ absurd (ground arith)
    ]
  ],
  λ o. elim o [ inl e ↦ rw e refl | inr e ↦ rw e refl ],
)

requirements_iff :
    (xs ys : List String)
    → all safe_label xs ≡ true
    → all safe_label ys ≡ true
    → (not (join_nul (unique_sorted xs) == join_nul ys) ≡ false) ↔ (unique_sorted xs ≡ ys)
requirements_iff xs ys p q = (
  λ h. join_nul-inj (unique_sorted xs) ys (unique_sorted-labels xs p) q (
      (eq_iff _ _).0 (elim (Bool-cases (join_nul (unique_sorted xs) == join_nul ys)) [
        | inl e ↦ e
        | inr n ↦ cc
      ])),
  λ e. rw (e, eq_refl) refl,
)

invocation_iff :
    (t : PolicyTrace) (index : ℕ) (i : ModelInvocation)
    → Distinct (ids t.model_roster)
    → all safe_label t.required_capabilities ≡ true
    → is_invocation i ≡ true
    → (invocation_reasons t index i ≡ []) ↔ MayInvoke t i
unfolding invocation_reasons is_invocation
invocation_iff t index i d labels ok =
    let every = append_iff (role_iff index i.role) (
      append_iff (push_if-nil i.recursive (recursive_agent_forbidden index)) (
        append_iff
          (push_iff (model_requirements_mismatch index) (
            requirements_iff i.required_capabilities t.required_capabilities (ground arith) labels))
          (model_iff t index i d))) in
    (
      λ h.
          let (a, (b, (c, s))) = every.0 h in
          record { role = a; alone = b; requirements = c; selected = s },
      λ p. every.1 (p.role, (p.alone, (p.requirements, p.selected))),
    )

-- The loop objects to no invocation exactly when each may be made.
pub invocations_iff :
    (t : PolicyTrace) (index : ℕ) (is : List ModelInvocation)
    → Distinct (ids t.model_roster)
    → all safe_label t.required_capabilities ≡ true
    → all is_invocation is ≡ true
    → (invocations_reasons t index is ≡ []) ↔ All (MayInvoke t) is
unfolding invocations_reasons
invocations_iff t index [] d labels ok = (λ _. tt, λ _. refl)
invocations_iff t index (i ∷ is) d labels ok =
    let (a, b) = (and-eq-true_iff _ _).0 ok in
    append_iff (invocation_iff t index i d labels a) (invocations_iff t (suc index) is d labels b)
