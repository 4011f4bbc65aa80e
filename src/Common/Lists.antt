-- ===== src/Common/Lists.antt =====
-- Lists as the source's arrays: `some`, `every`, `find`, `filter`, `length`, over Boolean tests.
use Prim.Native.Nat.{ℕ, zero, suc}
use mathlib.Core.Path.{◌≡◌, refl}
use mathlib.Core.Logic.{◌↔◌, ◌⊎◌, inl, inr}
use mathlib.Core.Bool.{Bool, true, false, ◌&&◌, ◌||◌, not, and-eq-true_iff}
use mathlib.Core.Option.{Option, none, some}
use mathlib.Core.List.{List, [], ◌∷◌, ◌++◌}
use native.Mathlib.Omega.{arith}
use ycm_harness.Common.Tests.{ltb, if◌then◌else◌, Bool-cases}

-- An element that stands in a list, with its place.
pub data In {ℓ} {A : Type ℓ} (x : A) : List A → Type ℓ where
  here : {xs : List A} → In x (x ∷ xs)
  there : {y : A} {xs : List A} → In x xs → In x (y ∷ xs)

module _ {ℓ} {A : Type ℓ} where
  abbrev pub length : List A → ℕ
  length [] = 0
  length (x ∷ xs) = suc (length xs)

  abbrev pub any : (A → Bool) → List A → Bool
  any p [] = false
  any p (x ∷ xs) = p x || any p xs

  abbrev pub all : (A → Bool) → List A → Bool
  all p [] = true
  all p (x ∷ xs) = p x && all p xs

  abbrev pub find : (A → Bool) → List A → Option A
  find p [] = none
  find p (x ∷ xs) = if p x then some x else find p xs

  abbrev pub filter : (A → Bool) → List A → List A
  filter p [] = []
  filter p (x ∷ xs) = if p x then x ∷ filter p xs else filter p xs

  -- `keys.map(f).filter(Boolean)`.
  abbrev pub filter_map {κ} : {B : Type κ} → (B → Option A) → List B → List A
  filter_map f [] = []
  filter_map f (b ∷ bs) = elim (f b) [ none ↦ filter_map f bs | some a ↦ a ∷ filter_map f bs ]

  abbrev pub head? : List A → Option A
  head? [] = none
  head? (x ∷ xs) = some x

  abbrev pub get_elem? : List A → ℕ → Option A
  get_elem? [] i = none
  get_elem? (x ∷ xs) zero = some x
  get_elem? (x ∷ xs) (suc i) = get_elem? xs i

  abbrev pub or_else : Option A → Option A → Option A
  or_else none b = b
  or_else (some a) b = some a

pub not-In-nil {ℓ} : {A : Type ℓ} {x : A} → ¬ In x []
not-In-nil i = elim i [ ]

pub In-cons {ℓ} : {A : Type ℓ} {x y : A} {xs : List A} → In x (y ∷ xs) → (x ≡ y) ⊎ In x xs
In-cons here = inl refl
In-cons (there i) = inr i

-- `if (test) list.push(item)`, as the items that it adds.
abbrev pub push_if {ℓ} : {A : Type ℓ} → Bool → A → List A
push_if b x = if b then x ∷ [] else []

pub append-eq-nil {ℓ} : {A : Type ℓ} (xs ys : List A) → (xs ++ ys ≡ []) ↔ ((xs ≡ []) × (ys ≡ []))
append-eq-nil [] ys = (λ h. (refl, h), λ h. h.1)
append-eq-nil (x ∷ xs) ys = (λ h. cc, λ h. cc (h.0))

pub push_if-nil {ℓ} : {A : Type ℓ} (b : Bool) (x : A) → (push_if b x ≡ []) ↔ (b ≡ false)
push_if-nil true x = (λ h. cc, λ h. cc)
push_if-nil false x = (λ h. refl, λ h. refl)

abbrev pub is_empty {ℓ} : {A : Type ℓ} → List A → Bool
is_empty [] = true
is_empty (x ∷ xs) = false

pub is_empty_iff {ℓ} : {A : Type ℓ} (xs : List A) → (is_empty xs ≡ true) ↔ (xs ≡ [])
is_empty_iff [] = (λ h. refl, λ h. refl)
is_empty_iff (x ∷ xs) = (λ h. cc, λ h. cc)

module _ {ℓ κ} {A : Type ℓ} (P : A → Type κ) where
  abbrev pub All : List A → Type κ
  All [] = Unit
  All (x ∷ xs) = P x × All xs

  pub All-append : (xs ys : List A) → All xs → All ys → All (xs ++ ys)
  All-append [] ys hx hy = hy
  All-append (x ∷ xs) ys hx hy = (hx.0, All-append xs ys hx.1 hy)

  pub All-In : {x : A} {xs : List A} → All xs → In x xs → P x
  All-In a here = a.0
  All-In a (there i) = All-In a.1 i

  pub All-of_In : (xs : List A) → ((x : A) → In x xs → P x) → All xs
  All-of_In [] f = tt
  All-of_In (x ∷ xs) f = (f x here, All-of_In xs (λ y i. f y (there i)))

module _ {ℓ} {A : Type ℓ} (p : A → Bool) where
  pub any→In : (xs : List A) → any p xs ≡ true → (x : A) × In x xs × (p x ≡ true)
  any→In [] h = cc
  any→In (x ∷ xs) h = elim (Bool-cases (p x)) [
    | inl e ↦ (x, here, e)
    | inr e ↦ let (y, i, q) = any→In xs (rw e at h) in (y, there i, q)
  ]

  pub In→any : {x : A} {xs : List A} → In x xs → p x ≡ true → any p xs ≡ true
  In→any (here {xs}) q = rw q
  In→any (there {y} {xs} i) q = ground (arith, In→any i q)

  pub any-false : {x : A} (xs : List A) → any p xs ≡ false → In x xs → p x ≡ false
  any-false {x} xs h i = elim (Bool-cases (p x)) [ inl e ↦ cc (In→any i e) | inr e ↦ e ]

  pub all_iff : (xs : List A) → (all p xs ≡ true) ↔ All (λ x. p x ≡ true) xs
  all_iff [] = (λ _. tt, λ _. refl)
  all_iff (x ∷ xs) = (
    λ h. let (a, b) = (and-eq-true_iff _ _).0 h in (a, (all_iff xs).0 b),
    λ h. rw h.0 ((all_iff xs).1 h.1),
  )

  pub find-some : (xs : List A) (x : A) → find p xs ≡ some x → In x xs × (p x ≡ true)
  find-some [] x h = cc
  find-some (y ∷ xs) x h = elim (Bool-cases (p y)) [
    | inl e ↦ let same : y ≡ x = ground arith in rw (← same) (here, e)
    | inr e ↦ let (i, q) = find-some xs x (rw e at h) in (there i, q)
  ]

  pub find-none : {x : A} (xs : List A) → find p xs ≡ none → In x xs → p x ≡ false
  find-none [] h i = elim i [ ]
  find-none (y ∷ xs) h here = ground arith
  find-none (y ∷ xs) h (there i) = find-none xs (ground arith) i

  pub In-filter : {x : A} (xs : List A) → In x (filter p xs) → In x xs × (p x ≡ true)
  In-filter [] i = absurd (not-In-nil i)
  In-filter {x} (y ∷ xs) i = elim (Bool-cases (p y)) [
    | inl e ↦ elim (In-cons (rw e at i)) [
      | inl same ↦ rw same (here, e)
      | inr j ↦ let (k, q) = In-filter xs j in (there k, q)
    ]
    | inr e ↦ let (k, q) = In-filter xs (rw e at i) in (there k, q)
  ]

  pub In-filter_of : {x : A} {xs : List A} → In x xs → p x ≡ true → In x (filter p xs)
  In-filter_of here q = rw q here
  In-filter_of (there {y} {xs} i) q = elim (Bool-cases (p y)) [
    | inl e ↦ rw e (there (In-filter_of i q))
    | inr e ↦ rw e (In-filter_of i q)
  ]

module _ {ℓ} {A : Type ℓ} where
  pub In-append : (xs ys : List A) {a : A} → In a (xs ++ ys) → In a xs ⊎ In a ys
  In-append [] ys i = inr i
  In-append (x ∷ xs) ys here = inl here
  In-append (x ∷ xs) ys (there i) = elim (In-append xs ys i) [
    | inl j ↦ inl (there j)
    | inr j ↦ inr j
  ]

  pub In-append_left : {a : A} {xs : List A} (ys : List A) → In a xs → In a (xs ++ ys)
  In-append_left ys here = here
  In-append_left ys (there i) = there (In-append_left ys i)

  pub In-append_right : (xs : List A) {ys : List A} {a : A} → In a ys → In a (xs ++ ys)
  In-append_right [] i = i
  In-append_right (x ∷ xs) i = there (In-append_right xs i)

module _ {ℓ} {A : Type ℓ} where
  pub any_iff :
      (p : A → Bool) (xs : List A) → (any p xs ≡ true) ↔ ((x : A) × In x xs × (p x ≡ true))
  any_iff p xs = (any→In p xs, λ (x, i, q). In→any p i q)

  pub any-filter : (p q : A → Bool) (xs : List A) → any p (filter q xs) ≡ any (λ x. q x && p x) xs
  any-filter p q [] = refl
  any-filter p q (x ∷ xs) = ground (arith, any-filter p q xs)

  -- A list with fewer than one element has none.
  pub some_In_iff : (xs : List A) → (ltb (length xs) 1 ≡ false) ↔ ((x : A) × In x xs)
  some_In_iff [] = (λ h. cc, λ (x, i). absurd (not-In-nil i))
  some_In_iff (x ∷ xs) = (λ h. (x, here), λ h. ground arith)

  pub is_empty-In_iff : (xs : List A) → (is_empty xs ≡ false) ↔ ((x : A) × In x xs)
  is_empty-In_iff [] = (λ h. cc, λ (x, i). absurd (not-In-nil i))
  is_empty-In_iff (x ∷ xs) = (λ h. (x, here), λ h. refl)

  pub In-filter_iff :
      (p : A → Bool) {x : A} (xs : List A) → In x (filter p xs) ↔ (In x xs × (p x ≡ true))
  In-filter_iff p xs = (In-filter p xs, λ (i, q). In-filter_of p i q)

  -- Two lists of what is missing, each with what it takes to be empty.
  pub append_iff {κ μ} :
      {P : Type κ} {Q : Type μ} {xs ys : List A}
      → (xs ≡ []) ↔ P
      → (ys ≡ []) ↔ Q
      → (xs ++ ys ≡ []) ↔ (P × Q)
  append_iff {xs} {ys} p q = (
    λ h. let (a, b) = (append-eq-nil xs ys).0 h in (p.0 a, q.0 b),
    λ h. (append-eq-nil xs ys).1 (p.1 h.0, q.1 h.1),
  )

  pub push_not_iff {κ} :
      {P : Type κ} {b : Bool} (x : A) → (b ≡ true) ↔ P → (push_if (not b) x ≡ []) ↔ P
  push_not_iff {b = true} x p = (λ _. p.0 refl, λ _. refl)
  push_not_iff {b = false} x p = (λ h. cc, λ h. cc (p.1 h))

  pub push_iff {κ} : {P : Type κ} {b : Bool} (x : A) → (b ≡ false) ↔ P → (push_if b x ≡ []) ↔ P
  push_iff {b = true} x p = (λ h. cc, λ h. cc (p.1 h))
  push_iff {b = false} x p = (λ _. p.0 refl, λ _. refl)

  -- Items that are missing only under a test.
  pub guarded_iff {κ} :
      {P : Type κ} {xs : List A} (b : Bool)
      → (xs ≡ []) ↔ P
      → ((if b then xs else []) ≡ []) ↔ (b ≡ true → P)
  guarded_iff true p = (λ h _. p.0 h, λ f. p.1 (f refl))
  guarded_iff false p = (λ h e. cc, λ f. refl)

  pub push_unless_iff {κ} :
      {P : Type κ} {c : Bool} (b : Bool) (x : A)
      → (c ≡ true) ↔ P
      → (push_if (b && not c) x ≡ []) ↔ (b ≡ true → P)
  push_unless_iff {c = true} true x p = (λ _ _. p.0 refl, λ _. refl)
  push_unless_iff {c = false} true x p = (λ h. cc, λ f. cc (p.1 (f refl)))
  push_unless_iff {c} false x p = (λ h e. cc, λ f. refl)

  pub push_both_iff {κ} :
      {P : Type κ} {c : Bool} (b : Bool) (x : A)
      → (c ≡ false) ↔ P
      → (push_if (b && c) x ≡ []) ↔ (b ≡ true → P)
  push_both_iff {c = true} true x p = (λ h. cc, λ f. cc (p.1 (f refl)))
  push_both_iff {c = false} true x p = (λ _ _. p.0 refl, λ _. refl)
  push_both_iff {c} false x p = (λ h e. cc, λ f. refl)
