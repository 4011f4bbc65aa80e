-- ===== src/Common/Sorting.antt =====
-- `Array.prototype.sort`: a stable sort. `le x y` says that the comparator of `x` and `y` is not
-- positive.
use mathlib.Core.Path.{◌≡◌, refl}
use mathlib.Core.Logic.{◌⊎◌, inl, inr}
use mathlib.Core.Bool.{Bool, true}
use mathlib.Core.Option.{none, some}
use mathlib.Core.List.{List, [], ◌∷◌}
use native.Mathlib.Omega.{arith}
use ycm_harness.Common.Tests.{if◌then◌else◌, Bool-cases}
use ycm_harness.Common.Lists.{In, here, there, In-cons, not-In-nil, head?}

module _ {ℓ} {A : Type ℓ} (le : A → A → Bool) where
  unfoldable pub insert : A → List A → List A
  insert x [] = x ∷ []
  insert x (y ∷ ys) = if le x y then x ∷ y ∷ ys else y ∷ insert x ys

  unfoldable pub sort : List A → List A
  unfolding insert
  sort [] = []
  sort (x ∷ xs) = insert x (sort xs)

  pub In-insert : {z : A} (x : A) (ys : List A) → In z (insert x ys) → In z (x ∷ ys)
  unfolding insert
  In-insert x [] i = i
  In-insert {z} x (y ∷ ys) i = elim (Bool-cases (le x y)) [
    | inl e ↦ rw e at i
    | inr e ↦ elim (In-cons (rw e at i)) [
      | inl same ↦ rw same (there here)
      | inr j ↦ elim (In-cons (In-insert x ys j)) [
        | inl same ↦ rw same here
        | inr k ↦ there (there k)
      ]
    ]
  ]

  insert_self : (x : A) (ys : List A) → In x (insert x ys)
  unfolding insert
  insert_self x [] = here
  insert_self x (y ∷ ys) = elim (Bool-cases (le x y)) [
    | inl e ↦ rw e here
    | inr e ↦ rw e (there (insert_self x ys))
  ]

  insert_other : {z : A} (x : A) (ys : List A) → In z ys → In z (insert x ys)
  unfolding insert
  insert_other x [] i = absurd (not-In-nil i)
  insert_other x (y ∷ ys) here = elim (Bool-cases (le x y)) [
    | inl e ↦ rw e (there here)
    | inr e ↦ rw e here
  ]
  insert_other x (y ∷ ys) (there i) = elim (Bool-cases (le x y)) [
    | inl e ↦ rw e (there (there i))
    | inr e ↦ rw e (there (insert_other x ys i))
  ]

  -- Sorting keeps the elements.
  pub In-sort : {z : A} (xs : List A) → In z (sort xs) → In z xs
  unfolding sort
  In-sort [] i = i
  In-sort (x ∷ xs) i = elim (In-cons (In-insert x (sort xs) i)) [
    | inl same ↦ rw same here
    | inr j ↦ there (In-sort xs j)
  ]

  pub In-sort_of : {z : A} (xs : List A) → In z xs → In z (sort xs)
  unfolding sort
  In-sort_of [] i = absurd (not-In-nil i)
  In-sort_of (x ∷ xs) here = insert_self x (sort xs)
  In-sort_of (x ∷ xs) (there i) = insert_other x (sort xs) (In-sort_of xs i)

  module _ (total : (x y : A) → (le x y ≡ true) ⊎ (le y x ≡ true))
      (trans : (x y z : A) → le x y ≡ true → le y z ≡ true → le x z ≡ true) where
    le_refl : (x : A) → le x x ≡ true
    le_refl x = elim (total x x) [ inl e ↦ e | inr e ↦ e ]

    insert-first :
        (x : A) (ys : List A)
        → ((h : A) → head? ys ≡ some h → (z : A) → In z ys → le h z ≡ true)
        → (m : A) → head? (insert x ys) ≡ some m
        → (z : A) → In z (x ∷ ys)
        → le m z ≡ true
    unfolding insert
    insert-first x [] f m h z i = elim (In-cons i) [
      | inl same ↦ let e : x ≡ m = ground arith in rw (same, ← e) (le_refl x)
      | inr j ↦ absurd (not-In-nil j)
    ]
    insert-first x (y ∷ ys) f m h z i = elim (Bool-cases (le x y)) [
      | inl e ↦
          let same : x ≡ m = ground arith in
          rw (← same)
            (elim (In-cons i) [ inl at ↦ rw at (le_refl x) | inr j ↦ trans x y z e (f y refl z j) ])
      | inr e ↦
          let same : y ≡ m = ground arith in
          rw (← same) (elim (In-cons i) [
            | inl at ↦ rw at (elim (total x y) [ inl l ↦ cc | inr l ↦ l ])
            | inr j ↦ f y refl z j
          ])
    ]

    -- The first element of the sorted list comes before all the others.
    pub head-sort-first :
        (xs : List A) (m : A) → head? (sort xs) ≡ some m → (z : A) → In z xs → le m z ≡ true
    unfolding sort
    head-sort-first [] m h z i = absurd (not-In-nil i)
    head-sort-first (x ∷ xs) m h z i =
        insert-first x (sort xs) (λ k e w j. head-sort-first xs k e w (In-sort xs j)) m h z
          (elim (In-cons i) [ inl e ↦ rw e here | inr j ↦ there (In-sort_of xs j) ])

  pub head-sort-In : (xs : List A) (m : A) → head? (sort xs) ≡ some m → In m xs
  head-sort-In xs m h = In-sort xs (go (sort xs) h)
    where
      go : (ys : List A) → head? ys ≡ some m → In m ys
      go [] h = cc
      go (y ∷ ys) h = let e : y ≡ m = ground arith in rw (← e) here

  pub head-sort-none : {z : A} (xs : List A) → head? (sort xs) ≡ none → In z xs → ⊥
  head-sort-none {z} xs h i = go (sort xs) h (In-sort_of xs i)
    where
      go : (ys : List A) → head? ys ≡ none → In z ys → ⊥
      go [] h i = absurd (not-In-nil i)
      go (y ∷ ys) h i = cc
