-- ===== src/Common/Text.antt =====
-- Text: truthiness, comparison in lower case, `trim`, and what the runtime supplies.
use Prim.Native.Nat.{ℕ, ◌+◌}
use Prim.Native.Char.{Char, code}
use Prim.Native.String.{String, [], ◌∷◌}
use mathlib.Core.Path.{◌≡◌, refl}
use mathlib.Core.Logic.{◌⊎◌, ◌↔◌, inl, inr}
use mathlib.Core.Bool.{Bool, true, false, not, ◌&&◌, ◌||◌}
use mathlib.Core.Option.{Option, none, some}
use native.Mathlib.Omega.{arith}
use text.Mathlib.Text.{◌==◌}
use text.Mathlib.TextEquality.{eq_iff}
use ycm_harness.Common.Tests.{ltb, leb, eqb, if◌then◌else◌}

pub differ : ◌≡◌ {A = Bool} false true → ⊥
differ q = cc

-- The decision of an equality that a test answers.
abbrev decided {ℓ} :
    {A : Type ℓ} → (s t : A) → (b : Bool) → (b ≡ true → s ≡ t) → (s ≡ t → b ≡ true) → Dec (s ≡ t)
decided s t true sound complete = yes (sound refl)
decided s t false sound complete = no (λ p. differ (complete p))

-- Texts are equal or not.
unfoldable pub String-discrete : Discrete String
String-discrete s t = decided s t (s == t) (eq_iff s t).0 (eq_iff s t).1

-- `Boolean(value)` of an optional text: absent and empty texts are false.
abbrev pub truthy : Option String → Bool
truthy none = false
truthy (some s) = not (s == "")

abbrev pub opt_eq : Option String → String → Bool
opt_eq none t = false
opt_eq (some s) t = s == t

-- A capital ASCII letter becomes a small one. No other code point becomes one of the letters of
-- the words that the source compares with.
abbrev lower : ℕ → ℕ
lower c = if leb 65 c && leb c 90 then c + 32 else c

-- `s.toLowerCase() === t`, for a lower-case ASCII text `t`.
unfoldable pub lower_is : String → String → Bool
lower_is [] [] = true
lower_is [] (d ∷ t) = false
lower_is (c ∷ s) [] = false
lower_is (c ∷ s) (d ∷ t) = eqb (lower (code c)) (code d) && lower_is s t

abbrev is_space : Char → Bool
is_space c =
    leb 9 (code c) && leb (code c) 13
    || eqb (code c) 32
    || eqb (code c) 160
    || eqb (code c) 5760
    || leb 8192 (code c) && leb (code c) 8202
    || leb 8232 (code c) && leb (code c) 8233
    || eqb (code c) 8239
    || eqb (code c) 8287
    || eqb (code c) 12288
    || eqb (code c) 65279

trim_end : String → String
trim_end [] = []
trim_end (c ∷ s) = let rest = trim_end s in if is_space c && rest == "" then [] else c ∷ rest

unfoldable pub trim_start : String → String
trim_start [] = []
trim_start (c ∷ s) = let rest = trim_start s in if is_space c then rest else c ∷ s

unfoldable pub trim : String → String
unfolding trim_start trim_end
trim s = trim_end (trim_start s)

-- What the JavaScript runtime supplies: `a.localeCompare(b) <= 0`, and `Date.parse` in
-- milliseconds, which is absent where the source gets `NaN`.
pub record Host : Type 0 where
  pub locale_le : String → String → Bool
  pub locale_total : (a b : String) → (locale_le a b ≡ true) ⊎ (locale_le b a ≡ true)
  pub locale_trans :
      (a b c : String) → locale_le a b ≡ true → locale_le b c ≡ true → locale_le a c ≡ true
  pub date_parse : String → Option ℕ

-- Texts by code points.
abbrev pub code_le : String → String → Bool
code_le [] t = true
code_le (c ∷ s) [] = false
code_le (c ∷ s) (d ∷ t) = ltb (code c) (code d) || eqb (code c) (code d) && code_le s t

pub code_total : (a b : String) → (code_le a b ≡ true) ⊎ (code_le b a ≡ true)
code_total [] b = inl refl
code_total (c ∷ s) [] = inr refl
code_total (c ∷ s) (d ∷ t) = ground (arith, code_total s t)

pub code_trans : (a b c : String) → code_le a b ≡ true → code_le b c ≡ true → code_le a c ≡ true
code_trans [] b c p q = refl
code_trans (x ∷ a) [] c p q = cc
code_trans (x ∷ a) (y ∷ b) [] p q = cc
code_trans (x ∷ a) (y ∷ b) (z ∷ c) p q = ground (arith, code_trans a b c)

abbrev pub no_date : String → Option ℕ
no_date s = none

-- A runtime that collates by code points and reads no date.
abbrev pub code_point_host : Host
code_point_host = record {
  locale_le = code_le;
  locale_total = code_total;
  locale_trans = code_trans;
  date_parse = no_date;
}

pub opt_eq_lem : (o : Option String) (s : String) → (opt_eq o s ≡ true) ↔ (o ≡ some s)
opt_eq_lem none s = (λ h. cc, λ h. cc)
opt_eq_lem (some t) s = (λ h. ground (arith, eq_iff t s), λ h. ground (arith, eq_iff t s))
