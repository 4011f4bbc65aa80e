-- ===== src/Hooks/Stop/Words.antt =====
-- What the tests of src/hooks/stop.ts on texts and flags mean.
use ycm_harness.Common.{
  ◌≡◌, refl, ap, ◌↔◌, inl, inr, String, Bool, true, false, Option, none, some, List, ◌==◌, ◌||◌,
  arith, eq_iff, eqb_iff, In, any_iff, and_with, Bool-cases,
}
use Prim.Native.Char.{Char, code}
use ycm_harness.Continuation.Labels.{lower_char}
use ycm_harness.Hooks.Json.{Json, null, bool, number, string, array, object, is_true, is_false}
use ycm_harness.Hooks.Stop.{one_of, is_kind, same_text, starts_with, contains}

-- A text of a field is one of the words.
abbrev pub Among : List String → Option String → Type 0
Among words o = (s : String) × (o ≡ some s) × In s words

pub one_of_iff : (words : List String) (o : Option String) → (one_of words o ≡ true) ↔ Among words o
one_of_iff words none = (λ h. cc, λ (s, e, i). cc)
one_of_iff words (some s) = (
  λ h.
      let (w, i, e) = (any_iff (λ w. s == w) words).0 h in
      let same = (eq_iff s w).0 e in (w, ap some same, i),
  λ (w, e, i).
      let same : s ≡ w = ground arith in
      (any_iff (λ w. s == w) words).1 (w, i, (eq_iff s w).1 same),
)

pub is_true_iff : (o : Option Json) → (is_true o ≡ true) ↔ (o ≡ some (bool true))
is_true_iff (some (bool true)) = (λ h. refl, λ h. refl)
is_true_iff none = (λ h. cc, λ h. cc)
is_true_iff (some null) = (λ h. cc, λ h. cc)
is_true_iff (some (bool false)) = (λ h. cc, λ h. cc)
is_true_iff (some (number n)) = (λ h. cc, λ h. cc)
is_true_iff (some (string s)) = (λ h. cc, λ h. cc)
is_true_iff (some (array l)) = (λ h. cc, λ h. cc)
is_true_iff (some (object r)) = (λ h. cc, λ h. cc)

pub is_false_iff : (o : Option Json) → (is_false o ≡ true) ↔ (o ≡ some (bool false))
is_false_iff (some (bool false)) = (λ h. refl, λ h. refl)
is_false_iff none = (λ h. cc, λ h. cc)
is_false_iff (some null) = (λ h. cc, λ h. cc)
is_false_iff (some (bool true)) = (λ h. cc, λ h. cc)
is_false_iff (some (number n)) = (λ h. cc, λ h. cc)
is_false_iff (some (string s)) = (λ h. cc, λ h. cc)
is_false_iff (some (array l)) = (λ h. cc, λ h. cc)
is_false_iff (some (object r)) = (λ h. cc, λ h. cc)

pub is_kind_iff :
    (word : String) (o : Option Json) → (is_kind word o ≡ true) ↔ (o ≡ some (string word))
is_kind_iff word none = (λ h. cc, λ h. cc)
is_kind_iff word (some null) = (λ h. cc, λ h. cc)
is_kind_iff word (some (bool b)) = (λ h. cc, λ h. cc)
is_kind_iff word (some (number n)) = (λ h. cc, λ h. cc)
is_kind_iff word (some (string s)) =
    (λ h. ap (λ s. some (string s)) ((eq_iff s word).0 h), λ h. (eq_iff s word).1 (ground arith))
is_kind_iff word (some (array l)) = (λ h. cc, λ h. cc)
is_kind_iff word (some (object r)) = (λ h. cc, λ h. cc)

pub same_text_iff : (o p : Option String) → (same_text o p ≡ true) ↔ (o ≡ p)
same_text_iff none none = (λ h. refl, λ h. refl)
same_text_iff none (some t) = (λ h. cc, λ h. cc)
same_text_iff (some s) none = (λ h. cc, λ h. cc)
same_text_iff (some s) (some t) =
    (λ h. ap some ((eq_iff s t).0 h), λ h. (eq_iff s t).1 (ground arith))

-- The text begins with the small word, whatever the case of its letters.
pub data Begins : String → String → Type 0 where
  begun : {s : String} → Begins "" s
  letter_of :
      {w c : Char} {ws s : String}
      → code (lower_char c) ≡ code w
      → Begins ws s
      → Begins (String.◌∷◌ w ws) (String.◌∷◌ c s)

-- The word stands somewhere in the text.
pub data Occurs (word : String) : String → Type 0 where
  at_start : {s : String} → Begins word s → Occurs word s
  further : {c : Char} {s : String} → Occurs word s → Occurs word (String.◌∷◌ c s)

starts_with-Begins : (word s : String) → starts_with word s ≡ true → Begins word s
unfolding starts_with
starts_with-Begins String.[] s h = begun
starts_with-Begins (String.◌∷◌ w ws) String.[] h = cc
starts_with-Begins (String.◌∷◌ w ws) (String.◌∷◌ c s) h =
    let (e, r) = (and_with (eqb_iff (code (lower_char c)) (code w)) (λ h. h, λ h. h)).0 h in
    letter_of e (starts_with-Begins ws s r)

Begins-starts_with : {word s : String} → Begins word s → starts_with word s ≡ true
unfolding starts_with
Begins-starts_with begun = refl
Begins-starts_with (letter_of {w} {c} {ws} {s} e b) =
    (and_with (eqb_iff (code (lower_char c)) (code w)) (λ h. h, λ h. h)).1 (e, Begins-starts_with b)

contains-Occurs : (word s : String) → contains word s ≡ true → Occurs word s
unfolding contains
contains-Occurs word String.[] h = at_start (starts_with-Begins word _ h)
contains-Occurs word (String.◌∷◌ c s) h = elim (Bool-cases (starts_with word (String.◌∷◌ c s))) [
  | inl e ↦ at_start (starts_with-Begins word (String.◌∷◌ c s) e)
  | inr e ↦ further (contains-Occurs word s (rw e at h))
]

starts-contains : (word s : String) → starts_with word s ≡ true → contains word s ≡ true
unfolding contains
starts-contains word String.[] h = h
starts-contains word (String.◌∷◌ c s) h = rw h refl

Occurs-contains : {word s : String} → Occurs word s → contains word s ≡ true
unfolding contains
Occurs-contains {word} (at_start {s} b) = starts-contains word s (Begins-starts_with b)
Occurs-contains {word} (further {c} {s} o) =
    by_rest (starts_with word (String.◌∷◌ c s)) (Occurs-contains o)
  where
    by_rest : (b : Bool) {d : Bool} → d ≡ true → (b || d) ≡ true
    by_rest true e = refl
    by_rest false e = e

pub contains_iff : (word s : String) → (contains word s ≡ true) ↔ Occurs word s
contains_iff word s = (contains-Occurs word s, Occurs-contains)
