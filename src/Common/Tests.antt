-- ===== src/Common/Tests.antt =====
-- Boolean tests, the conditional, and the case splits that keep their equation.
use Prim.Native.Nat.{ℕ, ◌≤◌, ◌<◌, compare, Ordering}
use mathlib.Core.Path.{◌≡◌, refl}
use mathlib.Core.Logic.{◌↔◌, ◌⊎◌, inl, inr}
use mathlib.Core.Bool.{Bool, true, false, not, ◌&&◌, ◌||◌}
use mathlib.Core.Option.{Option, none, some}
use native.Mathlib.Omega.{arith}

abbrev pub ltb : ℕ → ℕ → Bool
ltb a b = elim (compare a b) [ Ordering.lt ↦ true | _ ↦ false ]

abbrev pub leb : ℕ → ℕ → Bool
leb a b = elim (compare a b) [ Ordering.gt ↦ false | _ ↦ true ]

abbrev pub eqb : ℕ → ℕ → Bool
eqb a b = elim (compare a b) [ Ordering.eq ↦ true | _ ↦ false ]

infix 1 if◌then◌else◌
abbrev pub if◌then◌else◌ {ℓ} : {A : Type ℓ} → Bool → A → A → A
if true then x else y = x
if false then x else y = y

pub ltb_iff : (a b : ℕ) → (ltb a b ≡ true) ↔ (a < b)
ltb_iff a b = ground arith

pub leb_iff : (a b : ℕ) → (leb a b ≡ true) ↔ (a ≤ b)
leb_iff a b = ground arith

pub eqb_iff : (a b : ℕ) → (eqb a b ≡ true) ↔ (a ≡ b)
eqb_iff a b = ground arith

pub Bool-cases : (b : Bool) → (b ≡ true) ⊎ (b ≡ false)
Bool-cases true = inl refl
Bool-cases false = inr refl

pub Option-cases {ℓ} : {A : Type ℓ} (o : Option A) → (o ≡ none) ⊎ ((a : A) × (o ≡ some a))
Option-cases none = inl refl
Option-cases (some a) = inr (a, refl)

-- A decision as a test.
abbrev pub test {ℓ} : {P : Type ℓ} → Dec P → Bool
test (yes p) = true
test (no p) = false

pub test_iff {ℓ} : {P : Type ℓ} (d : Dec P) → (test d ≡ true) ↔ P
test_iff (yes p) = (λ _. p, λ _. refl)
test_iff (no n) = (λ e. absurd (false_true e), λ p. absurd (n p))
  where
    false_true : ◌≡◌ {A = Bool} false true → ⊥
    false_true e = cc

abbrev pub is_some {ℓ} : {A : Type ℓ} → Option A → Bool
is_some none = false
is_some (some a) = true

pub not-false : (b : Bool) → not b ≡ false → b ≡ true
not-false true h = refl
not-false false h = cc

pub not-true : (b : Bool) → not b ≡ true → b ≡ false
not-true true h = cc
not-true false h = refl

pub not-false_of : (b : Bool) → b ≡ true → not b ≡ false
not-false_of true h = refl
not-false_of false h = cc

module _ {ℓ κ} {P : Type ℓ} {Q : Type κ} where
  pub or_with : {b c : Bool} → (b ≡ true) ↔ P → (c ≡ true) ↔ Q → ((b || c) ≡ true) ↔ (P ⊎ Q)
  or_with {b = true} p q = (λ h. inl (p.0 refl), λ h. refl)
  or_with {b = false} p q = (λ h. inr (q.0 h), λ h. elim h [ inl x ↦ cc (p.1 x) | inr y ↦ q.1 y ])

  pub and_with : {b c : Bool} → (b ≡ true) ↔ P → (c ≡ true) ↔ Q → ((b && c) ≡ true) ↔ (P × Q)
  and_with {b = true} p q = (λ h. (p.0 refl, q.0 h), λ h. q.1 (h.1))
  and_with {b = false} p q = (λ h. cc, λ h. cc (p.1 (h.0)))

pub false_with {ℓ} : {P : Type ℓ} {b : Bool} → (b ≡ true) ↔ P → (b ≡ false) ↔ (P → ⊥)
false_with {b = true} p = (λ h. cc, λ h. absurd (h (p.0 refl)))
false_with {b = false} p = (λ h x. cc (p.1 x), λ h. refl)

pub not_with {ℓ} : {P : Type ℓ} {b : Bool} → (b ≡ true) ↔ P → (not b ≡ true) ↔ (P → ⊥)
not_with {b = true} p = (λ h. cc, λ h. absurd (h (p.0 refl)))
not_with {b = false} p = (λ h x. cc (p.1 x), λ h. refl)
