-- ===== src/Continuation/Policy/Ladder.antt =====
-- The loop over the stages in evaluateExecutionPolicy, against the ladder that it stands for.
use ycm_harness.Common.{
  ℕ, zero, suc, ◌+◌, ◌≤◌, ◌<◌, ◌≡◌, refl, ap, ◌∙◌, ◌↔◌, ◌⊎◌, inl, inr, true, false, Option, none,
  some, List, [], ◌∷◌, arith, truthy, All, append_iff, Bool-cases, length,
}
use ycm_harness.Continuation.Policy.{
  StageOutcome, sufficient, inapplicable, insufficient, skipped, invalid, StageAttempt,
}
use ycm_harness.Continuation.Policy.Evaluate.{
  is_sufficient, is_passed_over, sufficient_from, no_count, attempt_reasons, stage_reasons,
  sufficient_at,
}

-- A stage that was tried and found inapplicable or insufficient, with a reason, a reference to
-- evidence, and at least one observation.
pub record PassedOver (a : StageAttempt) : Type 0 where
  pub outcome : (a.outcome ≡ inapplicable) ⊎ (a.outcome ≡ insufficient)
  pub reasoned : truthy a.reason ≡ true
  pub evidenced : truthy a.evidence_reference ≡ true
  pub observed : (n : ℕ) × (a.observation_count ≡ some n) × (0 < n)

-- Stage `k` is sufficient, the earlier ones were passed over and the later ones skipped.
abbrev pub Ladder : ℕ → List StageAttempt → Type 0
Ladder k [] = ⊥
Ladder zero (a ∷ rest) = (a.outcome ≡ sufficient) × All (λ b. b.outcome ≡ skipped) rest
Ladder (suc k) (a ∷ rest) = PassedOver a × Ladder k rest

passed_over-cases :
    (o : StageOutcome) → is_passed_over o ≡ true → (o ≡ inapplicable) ⊎ (o ≡ insufficient)
passed_over-cases sufficient h = cc
passed_over-cases inapplicable h = inl refl
passed_over-cases insufficient h = inr refl
passed_over-cases skipped h = cc
passed_over-cases invalid h = cc

passed_over-of :
    (o : StageOutcome) → (o ≡ inapplicable) ⊎ (o ≡ insufficient) → is_passed_over o ≡ true
passed_over-of o (inl e) = rw e refl
passed_over-of o (inr e) = rw e refl

sufficient-of : (o : StageOutcome) → is_sufficient o ≡ true → o ≡ sufficient
sufficient-of sufficient h = refl
sufficient-of inapplicable h = cc
sufficient-of insufficient h = cc
sufficient-of skipped h = cc
sufficient-of invalid h = cc

count_iff : (c : Option ℕ) → (no_count c ≡ false) ↔ ((n : ℕ) × (c ≡ some n) × (0 < n))
count_iff none = (λ h. cc, λ h. cc (h.1))
count_iff (some n) =
    (λ h. (n, refl, ground arith), λ (m, e, p). let same : n ≡ m = ground arith in ground arith)

attempt_after :
    (n f index : ℕ) (a : StageAttempt)
    → f < index
    → (attempt_reasons n (some f) index a ≡ []) ↔ (a.outcome ≡ skipped)
unfolding attempt_reasons
attempt_after n f index a h = (λ e. ground arith, λ e. ground arith)

attempt_at_found :
    (n f : ℕ) (a : StageAttempt) → a.outcome ≡ sufficient → attempt_reasons n (some f) f a ≡ []
unfolding attempt_reasons
attempt_at_found n f a h = ground arith

attempt_before :
    (n f index : ℕ) (a : StageAttempt)
    → index < f
    → is_sufficient a.outcome ≡ false
    → (attempt_reasons n (some f) index a ≡ []) ↔ PassedOver a
unfolding attempt_reasons
attempt_before n f index a h s = (
  λ e.
      let over : is_passed_over a.outcome ≡ true = ground arith in
      record {
        outcome = passed_over-cases a.outcome over;
        reasoned = ground arith;
        evidenced = ground arith;
        observed = (count_iff a.observation_count).0 (ground arith);
      },
  λ p.
      let counted = (count_iff a.observation_count).1 p.observed in
      let r = p.reasoned in
      let v = p.evidenced in elim p.outcome [ inl o ↦ ground arith | inr o ↦ ground arith ],
)

stages_after :
    (n f index : ℕ) (as' : List StageAttempt)
    → f < index
    → (stage_reasons n (some f) index as' ≡ []) ↔ All (λ b. b.outcome ≡ skipped) as'
unfolding stage_reasons
stages_after n f index [] h = (λ e. tt, λ e. refl)
stages_after n f index (a ∷ as') h =
    append_iff (attempt_after n f index a h) (stages_after n f (suc index) as' (omega arith))

found-ge :
    (index : ℕ) (as' : List StageAttempt) (f : ℕ) → sufficient_from index as' ≡ some f → index ≤ f
unfolding sufficient_from
found-ge index [] f h = cc
found-ge index (a ∷ as') f h = elim (Bool-cases (is_sufficient a.outcome)) [
  | inl e ↦ let same : index ≡ f = ground arith in omega arith
  | inr e ↦ let later = found-ge (suc index) as' f (rw e at h) in omega arith
]

-- The loop finds nothing to object to exactly when the stages form a ladder.
pub Ladder-iff :
    (n index k : ℕ) (as' : List StageAttempt) (f : ℕ)
    → f ≡ index + k
    → sufficient_from index as' ≡ some f
    → (stage_reasons n (some f) index as' ≡ []) ↔ Ladder k as'
unfolding stage_reasons sufficient_from
Ladder-iff n index k [] f e h = (λ _. cc, λ l. absurd l)
Ladder-iff n index zero (a ∷ as') f e h = elim (Bool-cases (is_sufficient a.outcome)) [
  | inl s ↦
      let at : a.outcome ≡ sufficient = sufficient-of a.outcome s in
      let same : index ≡ f = omega arith in
      append_iff (λ _. at, λ _. rw same (attempt_at_found n f a at))
        (stages_after n f (suc index) as' (omega arith))
  | inr s ↦ absurd (let later = found-ge (suc index) as' f (rw s at h) in omega arith)
]
Ladder-iff n index (suc k) (a ∷ as') f e h = elim (Bool-cases (is_sufficient a.outcome)) [
  | inl s ↦ absurd (let same : index ≡ f = ground arith in omega arith)
  | inr s ↦
      append_iff (attempt_before n f index a (omega arith) s)
        (Ladder-iff n (suc index) k as' f (omega arith) (rw s at h))
]

PassedOver-not_sufficient : (a : StageAttempt) → PassedOver a → is_sufficient a.outcome ≡ false
PassedOver-not_sufficient a p = elim p.outcome [ inl o ↦ rw o refl | inr o ↦ rw o refl ]

-- A ladder's sufficient stage is the one that the evaluator finds.
pub Ladder-found :
    (index k : ℕ) (as' : List StageAttempt)
    → Ladder k as'
    → sufficient_from index as' ≡ some (index + k)
unfolding sufficient_from
Ladder-found index k [] l = absurd l
Ladder-found index zero (a ∷ as') l = rw (l.0) (ap some (omega arith))
Ladder-found index (suc k) (a ∷ as') l =
    rw (PassedOver-not_sufficient a l.0)
      (Ladder-found (suc index) k as' l.1 ∙ ap some (omega arith))

-- Whether a stage is the sufficient one.
pub Ladder-sufficient_at :
    (k j : ℕ) (as' : List StageAttempt) → Ladder k as' → (sufficient_at j as' ≡ true) ↔ (j ≡ k)
Ladder-sufficient_at k j [] l = absurd l
Ladder-sufficient_at zero zero (a ∷ as') l = (λ _. refl, λ _. rw (l.0) refl)
Ladder-sufficient_at zero (suc j) (a ∷ as') l =
    (λ h. cc (h, skipped_at j as' l.1), λ e. absurd (omega arith))
  where
    skipped_at :
        (j : ℕ) (bs : List StageAttempt)
        → All (λ b. b.outcome ≡ skipped) bs
        → sufficient_at j bs ≡ false
    skipped_at j [] s = refl
    skipped_at zero (b ∷ bs) s = rw (s.0) refl
    skipped_at (suc j) (b ∷ bs) s = skipped_at j bs s.1
Ladder-sufficient_at (suc k) zero (a ∷ as') l =
    (λ h. cc (h, PassedOver-not_sufficient a l.0), λ e. absurd (omega arith))
Ladder-sufficient_at (suc k) (suc j) (a ∷ as') l =
    let at = Ladder-sufficient_at k j as' l.1 in
    (λ h. let e = at.0 h in omega arith, λ e. at.1 (omega arith))

pub Ladder-lt-length : (k : ℕ) (as' : List StageAttempt) → Ladder k as' → k < length as'
Ladder-lt-length k [] l = absurd l
Ladder-lt-length zero (a ∷ as') l = omega arith
Ladder-lt-length (suc k) (a ∷ as') l = let rest = Ladder-lt-length k as' l.1 in omega arith
