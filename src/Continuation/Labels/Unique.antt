-- ===== src/Continuation/Labels/Unique.antt =====
-- uniqueSorted of src/continuation/cost-policy.ts keeps the values, and its result is in order
-- with no repetition.
use ycm_harness.Common.{
  ◌≡◌, refl, ap, ◌∙◌, ◌↔◌, inl, inr, String, true, not, List, [], ◌∷◌, In, here, there, In-cons,
  In-filter, In-filter_of, filter-Distinct, filter_all, Distinct, all, All-In, All-of_In, all_iff,
  ◌==◌, eq_iff, eq_refl, Bool-cases, sort, In-sort, In-sort_of, sort-Distinct, sort_idem, code_le,
  code_total, code_trans, not-true,
}
use ycm_harness.Continuation.Labels.{safe_label, unique, unique_sorted}

In-unique : {z : String} (xs : List String) → In z (unique xs) → In z xs
unfolding unique
In-unique [] i = i
In-unique (x ∷ xs) i = elim (In-cons i) [
  | inl same ↦ rw same here
  | inr j ↦ there (In-unique xs ((In-filter _ (unique xs) j).0))
]

In-unique_of : {z : String} (xs : List String) → In z xs → In z (unique xs)
unfolding unique
In-unique_of [] i = i
In-unique_of {z} (x ∷ xs) i = elim (In-cons i) [
  | inl same ↦ rw same here
  | inr j ↦ elim (Bool-cases (z == x)) [
    | inl e ↦ rw ((eq_iff z x).0 e) here
    | inr e ↦ there (In-filter_of _ (In-unique_of xs j) (rw e refl))
  ]
]

unique-Distinct : (xs : List String) → Distinct (unique xs)
unfolding unique
unique-Distinct [] = tt
unique-Distinct (x ∷ xs) = (
  λ i. cc (not-true (x == x) ((In-filter _ (unique xs) i).1), eq_refl x),
  filter-Distinct _ (unique xs) (unique-Distinct xs),
)

unique_of_Distinct : (xs : List String) → Distinct xs → unique xs ≡ xs
unfolding unique
unique_of_Distinct [] d = refl
unique_of_Distinct (x ∷ xs) d =
    rw (unique_of_Distinct xs d.1) (ap (◌∷◌ x) (filter_all _ xs (λ y i. other y i)))
  where
    other : (y : String) → In y xs → not (y == x) ≡ true
    other y i = elim (Bool-cases (y == x)) [
      | inl e ↦ absurd (d.0 (rw (← (eq_iff y x).0 e) i))
      | inr e ↦ rw e refl
    ]

-- The values of the list, and no others.
pub In-unique_sorted_iff : {z : String} (xs : List String) → In z (unique_sorted xs) ↔ In z xs
unfolding unique_sorted
In-unique_sorted_iff xs = (
  λ i. In-unique xs (In-sort code_le (unique xs) i),
  λ i. In-sort_of code_le (unique xs) (In-unique_of xs i),
)

-- Done twice, it changes nothing more.
pub unique_sorted_idem : (xs : List String) → unique_sorted (unique_sorted xs) ≡ unique_sorted xs
unfolding unique_sorted
unique_sorted_idem xs =
    ap (sort code_le) (
      unique_of_Distinct (sort code_le (unique xs))
        (sort-Distinct code_le (unique xs) (unique-Distinct xs)))
    ∙ sort_idem code_le code_total code_trans (unique xs)

pub unique_sorted-labels :
    (xs : List String) → all safe_label xs ≡ true → all safe_label (unique_sorted xs) ≡ true
unique_sorted-labels xs h = (all_iff safe_label _).1 (
    All-of_In _ (unique_sorted xs)
      (λ z i. All-In _ ((all_iff safe_label xs).0 h) ((In-unique_sorted_iff xs).0 i)))
