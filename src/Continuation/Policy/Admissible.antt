-- ===== src/Continuation/Policy/Admissible.antt =====
-- What a trace that passes evaluateExecutionPolicy of src/continuation/cost-policy.ts is.
use ycm_harness.Common.{
  ℕ, zero, suc, ◌≤◌, ◌<◌, ◌≡◌, ◌≢◌, refl, ap, ◌∙◌, sym, ◌↔◌, inl, inr, true, not, ◌&&◌, Option,
  none, some, List, [], ◌∷◌, ◌++◌, arith, ltb, All, all, is_some, is_empty, push_if, append_iff,
  get_elem?, length, Bool-cases, if◌then◌else◌, returns, Distinct,
}
use ycm_harness.Continuation.Labels.{safe_label}
use ycm_harness.Continuation.Policy.{
  StageAttempt, ModelInvocation, PolicyInput, PolicyTrace, is_policy_input, is_invocation,
  normal_trace,
}
use ycm_harness.Continuation.Policy.Schema.{normal_trace-AreFields}
use ycm_harness.Continuation.Policy.Evaluate.{
  PolicyReason, no_sufficient_stage, correction_budget_exceeded, model_stage_without_call, pass,
  fail, PolicyResult, refused, sufficient_from, sufficient_at, stage_reasons, before_model,
  pre_model_call, attempt_at, call_reasons, roster_reasons, invocations_reasons, trace_reasons,
  evaluate_execution_policy,
}
use ycm_harness.Continuation.Policy.Ladder.{
  Ladder, Ladder-iff, Ladder-found, Ladder-sufficient_at, Ladder-lt-length,
}
use ycm_harness.Continuation.Policy.Models.{ids, roster_iff}
use ycm_harness.Continuation.Policy.Selection.{MayInvoke, invocations_iff}
use ycm_harness.Continuation.Policy.Replay.{result_of, evaluate_returns}

-- What the policy asks of a trace: a ladder up to the step that was sufficient, no model call
-- below the model's step and at least one at it, different ids in the roster, only invocations
-- that may be made, and at most one correction.
pub record Admissible (t : PolicyTrace) : Type 0 where
  pub step : ℕ
  pub ladder : Ladder step t.attempts
  pub no_early_call : step < 4 → t.model_invocations ≡ []
  pub model_called : step ≡ 4 → t.model_invocations ≢ []
  pub ids_differ : Distinct (ids t.model_roster)
  pub invoked : All (MayInvoke t) t.model_invocations
  pub corrections : t.correction_count ≤ 1

get_elem?-Ladder :
    (k : ℕ) (as' : List StageAttempt)
    → Ladder k as'
    → (a : StageAttempt) × (get_elem? as' k ≡ some a)
get_elem?-Ladder k [] l = absurd l
get_elem?-Ladder zero (a ∷ as') l = (a, refl)
get_elem?-Ladder (suc k) (a ∷ as') l = get_elem?-Ladder k as' l.1

-- Model calls agree with the step.
calls_iff :
    (k : ℕ) (t : PolicyTrace)
    → Ladder k t.attempts
    → k < 5
    → (call_reasons (some k) t ≡ [])
      ↔ ((k < 4 → t.model_invocations ≡ []) × (k ≡ 4 → t.model_invocations ≢ []))
unfolding call_reasons
calls_iff k t l b = calls t.model_invocations (get_elem?-Ladder k t.attempts l)
  where
    at_four : (sufficient_at 4 t.attempts ≡ true) ↔ ◌≡◌ {A = ℕ} 4 k
    at_four = Ladder-sufficient_at k 4 t.attempts l

    calls :
        (is : List ModelInvocation)
        → ((a : StageAttempt) × (get_elem? t.attempts k ≡ some a))
        → ((if before_model (some k) && not (is_empty is)
              then pre_model_call (attempt_at (some k) t.attempts)
              else push_if (sufficient_at 4 t.attempts && is_empty is) model_stage_without_call)
            ≡ [])
          ↔ ((k < 4 → is ≡ []) × (k ≡ 4 → is ≢ []))
    calls [] (a, e) = elim (Bool-cases (sufficient_at 4 t.attempts)) [
      | inl s ↦
          let four = at_four.0 s in
          rw s (λ h. absurd (ground arith), λ h. absurd (h.1 (sym four) refl))
      | inr n ↦ rw n (λ h. (λ _. refl, λ f. cc (n, at_four.1 (sym f))), λ h. ground arith)
    ]
    calls (i ∷ is) (a, e) = elim (Bool-cases (ltb k 4)) [
      | inl early ↦
          rw (early, e)
            (λ h. absurd (ground arith), λ h. absurd (let no = h.0 (ground arith) in cc))
      | inr late ↦ rw late (
        λ h. (λ f. absurd (ground arith), λ f no. cc),
        λ h. elim (Bool-cases (sufficient_at 4 t.attempts)) [
          | inl s ↦ rw s refl
          | inr n ↦ rw n refl
        ],
      )
    ]

iff_refl : {P : Type 0} → P ↔ P
iff_refl = (λ p. p, λ p. p)

-- Six lists are empty when what they form together is.
six_iff :
    (a b c d e f : List PolicyReason)
    → (a ++ (b ++ (c ++ (d ++ (e ++ f)))) ≡ [])
      ↔ ((a ≡ []) × ((b ≡ []) × ((c ≡ []) × ((d ≡ []) × ((e ≡ []) × (f ≡ []))))))
six_iff a b c d e f =
    append_iff iff_refl (
      append_iff iff_refl
        (append_iff iff_refl (append_iff iff_refl (append_iff iff_refl iff_refl))))

found_iff :
    (o : Option ℕ) → (push_if (not (is_some o)) no_sufficient_stage ≡ []) ↔ (is_some o ≡ true)
found_iff none = (λ h. cc, λ h. cc)
found_iff (some k) = (λ _. refl, λ _. refl)

budget_iff : (n : ℕ) → (push_if (ltb 1 n) correction_budget_exceeded ≡ []) ↔ (n ≤ 1)
budget_iff n = (λ h. ground arith, λ h. ground arith)

module _ (t : PolicyTrace) (five : length t.attempts ≡ 5)
    (labels : all safe_label t.required_capabilities ≡ true)
    (shapes : all is_invocation t.model_invocations ≡ true) where
  abbrev Quiet : Option ℕ → Type 0
  Quiet found =
      (stage_reasons (length t.attempts) found 0 t.attempts ≡ [])
      × ((push_if (not (is_some found)) no_sufficient_stage ≡ [])
          × ((call_reasons found t ≡ [])
              × ((roster_reasons [] t.model_roster ≡ [])
                  × ((invocations_reasons t 0 t.model_invocations ≡ [])
                      × (push_if (ltb 1 t.correction_count) correction_budget_exceeded ≡ [])))))

  Quiet-iff : (trace_reasons t ≡ []) ↔ Quiet (sufficient_from 0 t.attempts)
  unfolding trace_reasons
  Quiet-iff = six_iff _ _ _ _ _ _

  quiet→admissible : (o : Option ℕ) → sufficient_from 0 t.attempts ≡ o → Quiet o → Admissible t
  quiet→admissible none found (a, (b, rest)) = cc ((found_iff none).0 b)
  quiet→admissible (some k) found (a, (b, (c, (d, (e, f))))) =
      let l = (Ladder-iff (length t.attempts) 0 k t.attempts k (omega arith) found).0 a in
      let small = Ladder-lt-length k t.attempts l in
      let called = (calls_iff k t l (omega arith)).0 c in
      let differ = (roster_iff t.model_roster).0 d in
      record {
        step = k;
        ladder = l;
        no_early_call = called.0;
        model_called = called.1;
        ids_differ = differ;
        invoked = (invocations_iff t 0 t.model_invocations differ labels shapes).0 e;
        corrections = (budget_iff t.correction_count).0 f;
      }

  ladder-step : (p : Admissible t) → sufficient_from 0 t.attempts ≡ some p.step
  ladder-step p = Ladder-found 0 p.step t.attempts p.ladder ∙ ap some (omega arith)

  admissible→quiet : (p : Admissible t) → Quiet (some p.step)
  admissible→quiet p =
      let small = Ladder-lt-length p.step t.attempts p.ladder in
      (
        (Ladder-iff (length t.attempts) 0 p.step t.attempts p.step (omega arith) (ladder-step p)).1
            p.ladder,
        (
          refl,
          (
            (calls_iff p.step t p.ladder (omega arith)).1 (p.no_early_call, p.model_called),
            (
              (roster_iff t.model_roster).1 p.ids_differ,
              (
                (invocations_iff t 0 t.model_invocations p.ids_differ labels shapes).1 p.invoked,
                (budget_iff t.correction_count).1 p.corrections,
              ),
            ),
          ),
        ),
      )

  Admissible-iff : (trace_reasons t ≡ []) ↔ Admissible t
  Admissible-iff = (
    λ h. quiet→admissible (sufficient_from 0 t.attempts) refl (Quiet-iff.0 h),
    λ p. Quiet-iff.1 (rw (ladder-step p) (admissible→quiet p)),
  )

verdict_iff : (t : PolicyTrace) → ((result_of t).verdict ≡ pass) ↔ (trace_reasons t ≡ [])
verdict_iff t = (λ h. go (trace_reasons t) h, λ h. rw h refl)
  where
    go : (rs : List PolicyReason) → (if is_empty rs then pass else fail) ≡ pass → rs ≡ []
    go [] h = refl
    go (r ∷ rs) h = cc

-- The evaluator passes a value exactly when the schema takes it and its normal form is
-- admissible: a ladder of stages up to a sufficient one, each earlier one inapplicable or
-- insufficient with a reason, evidence and an observation, each later one skipped; model calls
-- exactly where the sufficient stage is the model's; different ids in the roster; each invocation
-- an executor's or a correction, not recursive, with the required capabilities and of a
-- configured, capable model that is the cheapest of the roster or escalated for a reason, and the
-- first by id of the capable models of its rank; and at most one correction.
pub evaluate_pass_iff :
    (i : PolicyInput) (r : PolicyResult)
    → evaluate_execution_policy (some i) ≡ returns r
    → (r.verdict ≡ pass) ↔ ((is_policy_input i ≡ true) × Admissible (normal_trace i))
unfolding evaluate_execution_policy
evaluate_pass_iff i r h = elim (Bool-cases (is_policy_input i)) [
  | inl ok ↦
      let same : result_of (normal_trace i) ≡ r = ground (arith, evaluate_returns i ok) in
      let f = normal_trace-AreFields i ok in
      let v = verdict_iff (normal_trace i) in
      let all_good = Admissible-iff (normal_trace i) f.five f.required_ok f.invocations_ok in
      rw (← same) (λ e. (ok, all_good.0 (v.0 e)), λ p. v.1 (all_good.1 p.1))
  | inr bad ↦ let same : refused ≡ r = ground arith in rw (← same) (λ e. cc, λ p. cc (bad, p.0))
]
