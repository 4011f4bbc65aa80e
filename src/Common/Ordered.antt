-- ===== src/Common/Ordered.antt =====
-- Sorted lists, lists without a repetition, and what sorting does with them.
use mathlib.Core.Path.{◌≡◌, refl, ap}
use mathlib.Core.Logic.{◌⊎◌, inl, inr}
use mathlib.Core.Bool.{Bool, true}
use mathlib.Core.List.{List, [], ◌∷◌}
use ycm_harness.Common.Tests.{Bool-cases}
use ycm_harness.Common.Lists.{In, here, there, In-cons, not-In-nil, filter, In-filter}
use ycm_harness.Common.Sorting.{insert, sort, In-insert, In-sort}

module _ {ℓ} {A : Type ℓ} where
  -- No element stands twice.
  abbrev pub Distinct : List A → Type ℓ
  Distinct [] = Unit
  Distinct (x ∷ xs) = (In x xs → ⊥) × Distinct xs

  pub filter-Distinct : (p : A → Bool) (xs : List A) → Distinct xs → Distinct (filter p xs)
  filter-Distinct p [] d = tt
  filter-Distinct p (x ∷ xs) d = elim (Bool-cases (p x)) [
    | inl e ↦ rw e (λ i. d.0 ((In-filter p xs i).0), filter-Distinct p xs d.1)
    | inr e ↦ rw e (filter-Distinct p xs d.1)
  ]

  pub filter_all :
      (p : A → Bool) (xs : List A) → ((x : A) → In x xs → p x ≡ true) → filter p xs ≡ xs
  filter_all p [] h = refl
  filter_all p (x ∷ xs) h = rw (h x here) (ap (◌∷◌ x) (filter_all p xs (λ y i. h y (there i))))

module _ {ℓ} {A : Type ℓ} (le : A → A → Bool) where
  -- Each element comes before all the later ones.
  abbrev pub Sorted : List A → Type ℓ
  Sorted [] = Unit
  Sorted (x ∷ xs) = ((z : A) → In z xs → le x z ≡ true) × Sorted xs

  insert-Distinct : (x : A) (ys : List A) → (In x ys → ⊥) → Distinct ys → Distinct (insert le x ys)
  unfolding insert
  insert-Distinct x [] n d = (not-In-nil, tt)
  insert-Distinct x (y ∷ ys) n d = elim (Bool-cases (le x y)) [
    | inl e ↦ rw e (n, d)
    | inr e ↦ rw e (
      λ i. elim (In-cons (In-insert le x ys i)) [ inl same ↦ n (rw same here) | inr j ↦ d.0 j ],
      insert-Distinct x ys (λ i. n (there i)) d.1,
    )
  ]

  pub sort-Distinct : (xs : List A) → Distinct xs → Distinct (sort le xs)
  unfolding sort
  sort-Distinct [] d = tt
  sort-Distinct (x ∷ xs) d =
      insert-Distinct x (sort le xs) (λ i. d.0 (In-sort le xs i)) (sort-Distinct xs d.1)

  insert_first :
      (x : A) (ys : List A) → ((z : A) → In z ys → le x z ≡ true) → insert le x ys ≡ x ∷ ys
  unfolding insert
  insert_first x [] h = refl
  insert_first x (y ∷ ys) h = rw (h y here)

  -- Sorting changes nothing that is in order.
  pub sort_of_Sorted : (xs : List A) → Sorted xs → sort le xs ≡ xs
  unfolding sort
  sort_of_Sorted [] s = refl
  sort_of_Sorted (x ∷ xs) s = rw (sort_of_Sorted xs s.1) (insert_first x xs s.0)

  module _ (total : (x y : A) → (le x y ≡ true) ⊎ (le y x ≡ true))
      (trans : (x y z : A) → le x y ≡ true → le y z ≡ true → le x z ≡ true) where
    insert-Sorted : (x : A) (ys : List A) → Sorted ys → Sorted (insert le x ys)
    unfolding insert
    insert-Sorted x [] s = (λ z i. absurd (not-In-nil i), tt)
    insert-Sorted x (y ∷ ys) s = elim (Bool-cases (le x y)) [
      | inl e ↦
          rw e
            (λ z i. elim (In-cons i) [ inl same ↦ rw same e | inr j ↦ trans x y z e (s.0 z j) ], s)
      | inr e ↦ rw e (
        λ z i. elim (In-cons (In-insert le x ys i)) [
          | inl same ↦ rw same (elim (total x y) [ inl l ↦ cc | inr l ↦ l ])
          | inr j ↦ s.0 z j
        ],
        insert-Sorted x ys s.1,
      )
    ]

    pub sort-Sorted : (xs : List A) → Sorted (sort le xs)
    unfolding sort
    sort-Sorted [] = tt
    sort-Sorted (x ∷ xs) = insert-Sorted x (sort le xs) (sort-Sorted xs)

    -- A second sort changes nothing.
    pub sort_idem : (xs : List A) → sort le (sort le xs) ≡ sort le xs
    sort_idem xs = sort_of_Sorted (sort le xs) (sort-Sorted xs)
