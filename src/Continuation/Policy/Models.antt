-- ===== src/Continuation/Policy/Models.antt =====
-- The loops over the roster and the invocations in evaluateExecutionPolicy, against what they ask
-- of an invocation.
use ycm_harness.Common.{
  ℕ, ◌≤◌, ◌≡◌, refl, ap, ◌∙◌, sym, ◌↔◌, inl, inr, String, true, false, and-eq-true_iff, Option,
  none, some, List, [], ◌∷◌, arith, ◌==◌, eq_iff, All, In, here, there, In-cons, find, append_iff,
  push_iff, Bool-cases, Distinct,
}
use ycm_harness.Continuation.Policy.{PolicyModel}
use ycm_harness.Continuation.Policy.Evaluate.{
  seen, roster_reasons, has_capabilities, lesser, min_rank, above,
}

-- The ids of a roster are different.
abbrev pub ids : List PolicyModel → List String
ids [] = []
ids (m ∷ ms) = m.model_id ∷ ids ms

seen_iff : (id : String) (l : List String) → (seen id l ≡ true) ↔ In id l
seen_iff id [] = (λ h. cc, λ i. elim i [ ])
seen_iff id (x ∷ l) = elim (Bool-cases (x == id)) [
  | inl e ↦ let same = (eq_iff x id).0 e in rw e (λ _. rw same here, λ _. refl)
  | inr e ↦ rw e (
    λ h. there ((seen_iff id l).0 h),
    λ i. elim (In-cons i) [
      | inl same ↦ cc (e, (eq_iff x id).1 (sym same))
      | inr j ↦ (seen_iff id l).1 j
    ],
  )
]

seen-false_iff : (id : String) (l : List String) → (seen id l ≡ false) ↔ (In id l → ⊥)
seen-false_iff id l = (
  λ h i. cc (h, (seen_iff id l).1 i),
  λ n. elim (Bool-cases (seen id l)) [ inl e ↦ absurd (n ((seen_iff id l).0 e)) | inr e ↦ e ],
)

-- None of the ids was seen before, and none stands twice.
abbrev NewIds : List String → List String → Type 0
NewIds before [] = Unit
NewIds before (x ∷ xs) = (In x before → ⊥) × NewIds (x ∷ before) xs

roster_new :
    (before : List String) (ms : List PolicyModel)
    → (roster_reasons before ms ≡ []) ↔ NewIds before (ids ms)
unfolding roster_reasons
roster_new before [] = (λ _. tt, λ _. refl)
roster_new before (m ∷ ms) =
    append_iff (push_iff _ (seen-false_iff m.model_id before)) (roster_new (m.model_id ∷ before) ms)

new-Distinct :
    (before xs : List String)
    → NewIds before xs
    → Distinct xs × ((z : String) → In z before → In z xs → ⊥)
new-Distinct before [] n = (tt, λ z i j. elim j [ ])
new-Distinct before (x ∷ xs) n =
    let (d, f) = new-Distinct (x ∷ before) xs n.1 in
    (
      (λ i. f x here i, d),
      λ z i j. elim (In-cons j) [ inl same ↦ n.0 (rw same at i) | inr k ↦ f z (there i) k ],
    )

Distinct-new :
    (before xs : List String)
    → Distinct xs
    → ((z : String) → In z before → In z xs → ⊥)
    → NewIds before xs
Distinct-new before [] d f = tt
Distinct-new before (x ∷ xs) d f = (
  λ i. f x i here,
  Distinct-new (x ∷ before) xs d.1
      (λ z i j. elim (In-cons i) [ inl same ↦ d.0 (rw same at j) | inr k ↦ f z k (there j) ]),
)

-- The roster has nothing against it exactly when its ids are different.
pub roster_iff : (ms : List PolicyModel) → (roster_reasons [] ms ≡ []) ↔ Distinct (ids ms)
roster_iff ms = (
  λ h. (new-Distinct [] (ids ms) ((roster_new [] ms).0 h)).0,
  λ d. (roster_new [] ms).1 (Distinct-new [] (ids ms) d (λ z i j. elim i [ ])),
)

In-ids : {m : PolicyModel} (ms : List PolicyModel) → In m ms → In m.model_id (ids ms)
In-ids (x ∷ ms) i = elim (In-cons i) [ inl same ↦ rw same here | inr j ↦ there (In-ids ms j) ]
In-ids [] i = elim i [ ]

-- With different ids, the model that `find` selects is the only one of its id.
pub find-only :
    (id : String) (m : PolicyModel) (ms : List PolicyModel)
    → Distinct (ids ms)
    → In m ms
    → m.model_id ≡ id
    → find (λ x. x.model_id == id) ms ≡ some m
find-only id m [] d i e = elim i [ ]
find-only id m (x ∷ ms) d i e = elim (Bool-cases (x.model_id == id)) [
  | inl s ↦ rw s (elim (In-cons i) [
    | inl same ↦ rw same refl
    | inr j ↦ absurd (d.0 (rw ((eq_iff x.model_id id).0 s ∙ sym e) (In-ids ms j)))
  ])
  | inr n ↦ rw n (elim (In-cons i) [
    | inl same ↦
        cc (n, (eq_iff x.model_id id).1 (ap (λ (y : PolicyModel). y.model_id) (sym same) ∙ e))
    | inr j ↦ find-only id m ms d.1 j e
  ])
]

-- The model has every capability that is required.
abbrev pub Capable : List String → PolicyModel → Type 0
Capable required m = All (λ c. In c m.capabilities) required

pub Capable-iff :
    (required : List String) (m : PolicyModel)
    → (has_capabilities required m ≡ true) ↔ Capable required m
Capable-iff [] m = (λ _. tt, λ _. refl)
Capable-iff (c ∷ cs) m = (
  λ h.
      let (a, b) = (and-eq-true_iff _ _).0 h in
      ((seen_iff c m.capabilities).0 a, (Capable-iff cs m).0 b),
  λ (a, b). (and-eq-true_iff _ _).1 ((seen_iff c m.capabilities).1 a, (Capable-iff cs m).1 b),
)

above-lesser :
    (r k : ℕ) (o : Option ℕ)
    → (above r (some (lesser k o)) ≡ false) ↔ ((r ≤ k) × (above r o ≡ false))
above-lesser r k none = (λ h. (ground arith, refl), λ h. ground arith)
above-lesser r k (some j) = (λ h. (ground arith, ground arith), λ h. ground arith)

-- A rank is not above the least one exactly when no rank is less.
pub above_iff :
    (r : ℕ) (ms : List PolicyModel)
    → (above r (min_rank ms) ≡ false) ↔ ((m : PolicyModel) → In m ms → r ≤ m.cost_rank)
unfolding min_rank
above_iff r [] = (λ h m i. elim i [ ], λ h. refl)
above_iff r (x ∷ ms) =
    let here_and_later = above-lesser r x.cost_rank (min_rank ms) in
    (
      λ h m i. elim (In-cons i) [
        | inl same ↦ rw same ((here_and_later.0 h).0)
        | inr j ↦ (above_iff r ms).0 ((here_and_later.0 h).1) m j
      ],
      λ f. here_and_later.1 (f x here, (above_iff r ms).1 (λ m i. f m (there i))),
    )
