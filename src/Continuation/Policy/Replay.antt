-- ===== src/Continuation/Policy/Replay.antt =====
-- evaluateExecutionPolicy of src/continuation/cost-policy.ts always returns, and gives the same
-- result for the trace in its own result, as the closure gate checks of an audit.
use ycm_harness.Common.{
  ◌≡◌, refl, ap, ◌∙◌, sym, ◌⊎◌, inl, inr, Bool, true, false, Option, none, some, List, [], ◌∷◌, map,
  arith, length, In, here, there, In-cons, filter, test, test_iff, Bool-cases, if◌then◌else◌, sort,
  In-sort, sort_of_Sorted, sort-Sorted, code_total, code_trans, returns, ◌>>=◌, is_empty, ◌==◌,
}
use ycm_harness.Continuation.Labels.Lower.{canonical_model_id_idem}
use ycm_harness.Continuation.Labels.Unique.{unique_sorted_idem}
use ycm_harness.Continuation.Policy.{
  Stage, Stage-discrete, stages, StageAttempt, PolicyModel, ModelInvocation, PolicyInput,
  PolicyTrace, is_policy_input, is_policy_trace, parse_trace, invalid_attempt, normal_attempts,
  normal_model, cheaper, normal_invocation, is_correction, normal_trace, input_of,
}
use ycm_harness.Continuation.Policy.Schema.{→are_fields, normal_trace-AreFields, normalize_returns}
use ycm_harness.Continuation.Policy.Evaluate.{
  pass, fail, PolicyResult, trace_reasons, evaluate_parsed, refused, evaluate_execution_policy,
}

normal_attempts_idem :
    (ss : List Stage) (as' : List StageAttempt)
    → normal_attempts ss (normal_attempts ss as') ≡ normal_attempts ss as'
unfolding normal_attempts
normal_attempts_idem [] as' = refl
normal_attempts_idem (s ∷ ss) [] = refl
normal_attempts_idem (s ∷ ss) (a ∷ as') = elim (Bool-cases (test (Stage-discrete a.stage s))) [
  | inl e ↦ rw (e, e) (ap (◌∷◌ a) (normal_attempts_idem ss as'))
  | inr e ↦
      let same = (test_iff (Stage-discrete s s)).1 refl in
      rw (e, same)
        (ap (◌∷◌ (invalid_attempt "stage_identity_mismatch" s)) (normal_attempts_idem ss as'))
]

normal_model_idem : (m : PolicyModel) → normal_model (normal_model m) ≡ normal_model m
unfolding normal_model
normal_model_idem m = λ i. record m {
  model_id = canonical_model_id_idem m.model_id i;
  capabilities = unique_sorted_idem m.capabilities i;
}

normal_invocation_idem :
    (v : ModelInvocation) → normal_invocation (normal_invocation v) ≡ normal_invocation v
unfolding normal_invocation
normal_invocation_idem v = λ i. record v {
  model_id = canonical_model_id_idem v.model_id i;
  required_capabilities = unique_sorted_idem v.required_capabilities i;
}

module _ {ℓ} {A : Type ℓ} (f : A → A) (idem : (a : A) → f (f a) ≡ f a) where
  map_fixed : (xs : List A) → ((x : A) → In x xs → f x ≡ x) → map f xs ≡ xs
  map_fixed [] h = refl
  map_fixed (x ∷ xs) h = cc (h x here, map_fixed xs (λ y i. h y (there i)))

  In-map_fixed : {x : A} (xs : List A) → In x (map f xs) → f x ≡ x
  In-map_fixed (y ∷ xs) i = elim (In-cons i) [
    | inl same ↦ rw same (idem y)
    | inr j ↦ In-map_fixed xs j
  ]
  In-map_fixed [] i = elim i [ ]

  map_idem : (xs : List A) → map f (map f xs) ≡ map f xs
  map_idem xs = map_fixed (map f xs) (λ x i. In-map_fixed xs i)

  -- Mapped and sorted twice is mapped and sorted.
  sort-map_idem :
      (le : A → A → Bool)
      → ((x y : A) → (le x y ≡ true) ⊎ (le y x ≡ true))
      → ((x y z : A) → le x y ≡ true → le y z ≡ true → le x z ≡ true)
      → (xs : List A) → sort le (map f (sort le (map f xs))) ≡ sort le (map f xs)
  sort-map_idem le total trans xs =
      rw (map_fixed (sort le (map f xs)) (λ x i. In-map_fixed xs (In-sort le (map f xs) i)))
        (sort_of_Sorted le (sort le (map f xs)) (sort-Sorted le total trans (map f xs)))

cheaper_total : (a b : PolicyModel) → (cheaper a b ≡ true) ⊎ (cheaper b a ≡ true)
cheaper_total a b = elim (code_total a.model_id b.model_id) [
  | inl h ↦ ground arith
  | inr h ↦ ground arith
]

cheaper_trans : (a b c : PolicyModel) → cheaper a b ≡ true → cheaper b c ≡ true → cheaper a c ≡ true
cheaper_trans a b c p q = ground (arith, code_trans a.model_id b.model_id c.model_id)

corrections-map :
    (is : List ModelInvocation)
    → length (filter is_correction (map normal_invocation is)) ≡ length (filter is_correction is)
unfolding normal_invocation
corrections-map [] = refl
corrections-map (v ∷ is) = elim (Bool-cases (v.role == "correction")) [
  | inl e ↦ rw e (omega (arith, corrections-map is))
  | inr e ↦ rw e (corrections-map is)
]

-- Normalising a normal form changes nothing.
normal_trace_idem : (i : PolicyInput) → normal_trace (input_of (normal_trace i)) ≡ normal_trace i
unfolding normal_trace input_of
normal_trace_idem input = λ i. record {
  attempts = normal_attempts_idem stages input.attempts i;
  required_capabilities = unique_sorted_idem input.required_capabilities i;
  model_roster =
      sort-map_idem normal_model normal_model_idem cheaper cheaper_total cheaper_trans
        input.model_roster i;
  model_invocations = map_idem normal_invocation normal_invocation_idem input.model_invocations i;
  correction_count = corrections-map input.model_invocations i;
}

abbrev pub result_of : PolicyTrace → PolicyResult
result_of t = record {
  verdict = if is_empty (trace_reasons t) then pass else fail;
  reasons = trace_reasons t;
  trace = t;
}

normal_trace-accepted :
    (i : PolicyInput) → is_policy_input i ≡ true → is_policy_trace (normal_trace i) ≡ true
unfolding is_policy_trace
normal_trace-accepted i h = →are_fields (normal_trace-AreFields i h)

replay-accepted :
    (i : PolicyInput)
    → is_policy_input i ≡ true
    → is_policy_input (input_of (normal_trace i)) ≡ true
unfolding is_policy_input input_of
replay-accepted i h = →are_fields (normal_trace-AreFields i h)

-- The evaluator does not throw on an input that its schema takes.
pub evaluate_returns :
    (i : PolicyInput)
    → is_policy_input i ≡ true
    → evaluate_execution_policy (some i) ≡ returns (result_of (normal_trace i))
unfolding evaluate_execution_policy evaluate_parsed ◌>>=◌ parse_trace
evaluate_returns i h = rw (h, normalize_returns i h, normal_trace-accepted i h) refl

-- What the evaluator returns.
unfoldable pub evaluated : Option PolicyInput → PolicyResult
unfolding is_policy_input
evaluated none = refused
evaluated (some i) = if is_policy_input i then result_of (normal_trace i) else refused

pub evaluated_ok :
    (i : PolicyInput) → is_policy_input i ≡ true → evaluated (some i) ≡ result_of (normal_trace i)
unfolding evaluated
evaluated_ok i ok = rw ok refl

evaluate_refuses :
    (i : PolicyInput)
    → is_policy_input i ≡ false
    → evaluate_execution_policy (some i) ≡ returns refused
unfolding evaluate_execution_policy
evaluate_refuses i bad = rw bad refl

evaluated_refuses : (i : PolicyInput) → is_policy_input i ≡ false → evaluated (some i) ≡ refused
unfolding evaluated
evaluated_refuses i bad = rw bad refl

evaluate_none : evaluate_execution_policy none ≡ returns (evaluated none)
unfolding evaluate_execution_policy evaluated
evaluate_none = refl

-- The evaluator never throws: a value that its schema refuses gets the one reason for it, and on any
-- other the schema of the normal form accepts it and the reasons are those of the normal form.
pub evaluate_total :
    (raw : Option PolicyInput) → evaluate_execution_policy raw ≡ returns (evaluated raw)
evaluate_total none = evaluate_none
evaluate_total (some i) = elim (Bool-cases (is_policy_input i)) [
  | inl ok ↦ evaluate_returns i ok ∙ ap returns (sym (evaluated_ok i ok))
  | inr bad ↦ evaluate_refuses i bad ∙ ap returns (sym (evaluated_refuses i bad))
]

-- The value, without the detour through the evaluator's result.
pub evaluated_replay :
    (i : PolicyInput)
    → is_policy_input i ≡ true
    → evaluated (some (input_of (normal_trace i))) ≡ evaluated (some i)
unfolding evaluated
evaluated_replay i h = rw (h, replay-accepted i h) (ap result_of (normal_trace_idem i))

-- On an input that its schema takes, the evaluator returns, and evaluating the trace of the
-- result returns that result again.
pub evaluate_replay :
    (i : PolicyInput)
    → is_policy_input i ≡ true
    → (r : PolicyResult) × (evaluate_execution_policy (some i) ≡ returns r)
      × (evaluate_execution_policy (some (input_of r.trace)) ≡ returns r)
evaluate_replay i h = (
  result_of (normal_trace i),
  evaluate_returns i h,
  evaluate_returns (input_of (normal_trace i)) (replay-accepted i h)
      ∙ ap (λ t. returns (result_of t)) (normal_trace_idem i),
)
