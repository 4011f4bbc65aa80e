-- ===== src/Common/Results.antt =====
-- Results of code that may throw.
use mathlib.Core.Path.{◌≡◌, refl, subst}
use native.Mathlib.Omega.{arith}
use mathlib.Core.Bool.{Bool, true, false}
use mathlib.Core.Option.{Option, none, some}
use ycm_harness.Common.Tests.{is_some}

-- `throws e` is a thrown error.
pub data Outcome {ℓ κ} (E : Type κ) (A : Type ℓ) : Type (ℓ ⊔ κ) where
  returns : A → Outcome E A
  throws : E → Outcome E A

infixl 5 ◌>>=◌ ◌>>◌
unfoldable pub ◌>>=◌ {ℓ κ μ} :
    {E : Type μ} {A : Type ℓ} {B : Type κ} → Outcome E A → (A → Outcome E B) → Outcome E B
returns a >>= f = f a
throws e >>= f = throws e

unfoldable pub ◌>>◌ {ℓ μ} :
    {E : Type μ} {B : Type ℓ} → Outcome E (Unit {0}) → Outcome E B → Outcome E B
unfolding ◌>>=◌
m >> k = m >>= λ _. k

-- `if (!test) throw e;`
unfoldable pub require {μ} : {E : Type μ} → Bool → E → Outcome E (Unit {0})
require true e = returns tt
require false e = throws e

-- `if (value === undefined) throw e;`
unfoldable pub some_or {ℓ μ} : {E : Type μ} {A : Type ℓ} → Option A → E → Outcome E A
some_or (some a) e = returns a
some_or none e = throws e

-- What holds of the value if the code returns one.
pub record Ends {ℓ κ μ} {E : Type μ} {A : Type ℓ} (P : A → Type κ) (o : Outcome E A)
    : Type (ℓ ⊔ κ ⊔ μ) where
  pub holds : (a : A) → o ≡ returns a → P a

module _ {ℓ κ μ} {E : Type μ} {A : Type ℓ} {P : A → Type κ} where
  pub Ends-at : {a : A} → P a → Ends {E = E} P (returns a)
  Ends-at {a} p = record { holds = λ b h. let e : a ≡ b = ground arith in subst P e p }

module _ {ℓ κ ν μ} {E : Type μ} {A : Type ℓ} {B : Type ν} {P : B → Type κ} where
  pub Ends-bind :
      {m : Outcome E A} {f : A → Outcome E B}
      → ((a : A) → m ≡ returns a → Ends P (f a))
      → Ends P (m >>= f)
  unfolding ◌>>=◌
  Ends-bind {m = returns a} h = h a refl
  Ends-bind {m = throws e} h = record { holds = λ b q. cc }

  pub Ends-some :
      {o : Option A} (e : E) {f : A → Outcome E B}
      → ((a : A) → o ≡ some a → Ends P (f a))
      → Ends P (some_or o e >>= f)
  unfolding ◌>>=◌ some_or
  Ends-some {o = some a} e h = h a refl
  Ends-some {o = none} e h = record { holds = λ b q. cc }

module _ {κ ν μ} {E : Type μ} {B : Type ν} {P : B → Type κ} where
  pub Ends-require :
      {c : Bool} (e : E) {k : Outcome E B} → (c ≡ true → Ends P k) → Ends P (require c e >> k)
  unfolding ◌>>◌ require
  Ends-require {c = true} e h = h refl
  Ends-require {c = false} e h = record { holds = λ b q. cc }

  pub Ends-then :
      {m : Outcome E (Unit {0})} {k : Outcome E B} → (m ≡ returns tt → Ends P k) → Ends P (m >> k)
  unfolding ◌>>◌
  Ends-then {m = returns u} h = h refl
  Ends-then {m = throws e} h = record { holds = λ b q. cc }

pub some_or_found {ℓ μ} :
    {E : Type μ} {A : Type ℓ} (o : Option A) (e : E) {a : A} → some_or o e ≡ returns a → o ≡ some a
unfolding some_or
some_or_found (some b) e h = ground arith
some_or_found none e h = cc

pub bind_found {ℓ μ} :
    {E : Type μ} {A : Type ℓ} (o : Outcome E (Option A)) (e : E)
    → (o >>= λ found. require (is_some found) e) ≡ returns tt
    → (x : A) × (o ≡ returns (some x))
unfolding ◌>>=◌ require
bind_found (returns (some x)) e h = (x, refl)
bind_found (returns none) e h = cc
bind_found (throws e') e h = cc
