-- ===== src/Continuation/Policy/Schema.antt =====
-- src/continuation/cost-policy.ts: the normal form of a well-formed input is a well-formed trace,
-- and normalising does nothing more to it.
use ycm_harness.Common.{
  ◌≡◌, refl, inl, inr, String, Bool, true, and-eq-true_iff, List, [], ◌∷◌, map, arith, length, all,
  all_iff, All-In, All-of_In, test, Bool-cases, sort, In-sort, returns,
}
use ycm_harness.Continuation.Labels.{safe_label, is_alphanumeric, label_rest, is_label_char}
use ycm_harness.Continuation.Labels.Lower.{safe_label-canonical}
use ycm_harness.Continuation.Labels.Unique.{unique_sorted-labels}
use ycm_harness.Continuation.Policy.{
  Stage, Stage-discrete, stages, StageAttempt, PolicyModel, ModelInvocation, PolicyInput,
  is_attempt, is_model, is_invocation, are_fields, is_policy_input, is_policy_trace, parse_trace,
  invalid_attempt, normal_attempts, normal_model, cheaper, normal_invocation, normal_trace,
  normalize,
}

-- What a schema's test on a value comes to.
pub record AreFields (attempts : List StageAttempt) (required : List String)
    (roster : List PolicyModel) (invocations : List ModelInvocation) : Type 0 where
  pub five : length attempts ≡ 5
  pub attempts_ok : all is_attempt attempts ≡ true
  pub required_ok : all safe_label required ≡ true
  pub roster_ok : all is_model roster ≡ true
  pub invocations_ok : all is_invocation invocations ≡ true

module _ {attempts : List StageAttempt} {required : List String} {roster : List PolicyModel}
    {invocations : List ModelInvocation} where
  pub are_fields→ :
      are_fields attempts required roster invocations ≡ true
      → AreFields attempts required roster invocations
  are_fields→ h = record {
    five = ground arith;
    attempts_ok = ground arith;
    required_ok = ground arith;
    roster_ok = ground arith;
    invocations_ok = ground arith;
  }

  pub →are_fields :
      AreFields attempts required roster invocations
      → are_fields attempts required roster invocations ≡ true
  →are_fields f = rw (f.five, f.attempts_ok, f.required_ok, f.roster_ok, f.invocations_ok) refl

-- A test that holds of every image of an element that passes.
all-map {ℓ} :
    {A : Type ℓ} (p : A → Bool) (f : A → A)
    → ((a : A) → p a ≡ true → p (f a) ≡ true)
    → (xs : List A) → all p xs ≡ true
    → all p (map f xs) ≡ true
all-map p f keep [] h = refl
all-map p f keep (x ∷ xs) h =
    let (a, b) = (and-eq-true_iff _ _).0 h in
    (and-eq-true_iff _ _).1 (keep x a, all-map p f keep xs b)

all-sort {ℓ} :
    {A : Type ℓ} (p : A → Bool) (le : A → A → Bool) (xs : List A)
    → all p xs ≡ true
    → all p (sort le xs) ≡ true
all-sort p le xs h =
    (all_iff p _).1
      (All-of_In _ (sort le xs) (λ x i. All-In _ ((all_iff p xs).0 h) (In-sort le xs i)))

normal_model-is_model : (m : PolicyModel) → is_model m ≡ true → is_model (normal_model m) ≡ true
unfolding is_model normal_model
normal_model-is_model m h =
    ground (arith, safe_label-canonical m.model_id, unique_sorted-labels m.capabilities)

normal_invocation-is_invocation :
    (i : ModelInvocation) → is_invocation i ≡ true → is_invocation (normal_invocation i) ≡ true
unfolding is_invocation normal_invocation
normal_invocation-is_invocation i h =
    ground (arith, safe_label-canonical i.model_id, unique_sorted-labels i.required_capabilities)

mismatch_label : (s : Stage) → is_attempt (invalid_attempt "stage_identity_mismatch" s) ≡ true
unfolding is_attempt safe_label is_alphanumeric label_rest is_label_char
mismatch_label s = refl

normal_attempts-ok :
    (ss : List Stage) (as' : List StageAttempt)
    → all is_attempt as' ≡ true
    → all is_attempt (normal_attempts ss as') ≡ true
unfolding normal_attempts
normal_attempts-ok [] as' h = refl
normal_attempts-ok (s ∷ ss) [] h = refl
normal_attempts-ok (s ∷ ss) (a ∷ as') h =
    let (b, c) = (and-eq-true_iff _ _).0 h in
    (and-eq-true_iff _ _).1 (
      elim (Bool-cases (test (Stage-discrete a.stage s))) [
        | inl e ↦ rw e b
        | inr e ↦ rw e (mismatch_label s)
      ],
      normal_attempts-ok ss as' c,
    )

length-normal_attempts :
    (ss : List Stage) (as' : List StageAttempt)
    → length as' ≡ length ss
    → length (normal_attempts ss as') ≡ length ss
unfolding normal_attempts
length-normal_attempts [] as' h = refl
length-normal_attempts (s ∷ ss) [] h = h
length-normal_attempts (s ∷ ss) (a ∷ as') h =
    let rest = length-normal_attempts ss as' (omega arith) in omega arith

pub normal_trace-AreFields :
    (i : PolicyInput)
    → is_policy_input i ≡ true
    → AreFields
        (normal_trace i).attempts
        (normal_trace i).required_capabilities
        (normal_trace i).model_roster
        (normal_trace i).model_invocations
unfolding is_policy_input normal_trace
normal_trace-AreFields i h =
    let f = are_fields→ h in
    record {
      five = length-normal_attempts stages i.attempts f.five;
      attempts_ok = normal_attempts-ok stages i.attempts f.attempts_ok;
      required_ok = unique_sorted-labels i.required_capabilities f.required_ok;
      roster_ok =
          all-sort is_model cheaper _
            (all-map is_model normal_model normal_model-is_model i.model_roster f.roster_ok);
      invocations_ok =
          all-map is_invocation normal_invocation normal_invocation-is_invocation
            i.model_invocations f.invocations_ok;
    }

-- The normal form of an input that the schema takes is a trace that the schema takes.
pub normalize_returns :
    (i : PolicyInput) → is_policy_input i ≡ true → normalize i ≡ returns (normal_trace i)
unfolding normalize parse_trace is_policy_trace
normalize_returns i h = rw (→are_fields (normal_trace-AreFields i h)) refl
