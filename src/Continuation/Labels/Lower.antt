-- ===== src/Continuation/Labels/Lower.antt =====
-- canonicalModelId of src/continuation/cost-policy.ts on labels.
use Prim.Native.Char.{Char, code}
use Prim.Native.String as Text
use ycm_harness.Common.{
  ℕ, zero, suc, ◌-◌, ◌≤◌, ◌<◌, ◌≡◌, refl, ◌⊎◌, inl, inr, String, true, ◌&&◌, and-eq-true_iff, arith,
  leb, leb_iff, Bool-cases,
}
use ycm_harness.Continuation.Labels.{
  is_alphanumeric, is_label_char, label_rest, safe_label, letter, lower_char, canonical_model_id,
}

abbrev IsSmall : Char → Type 0
IsSmall c = (97 ≤ code c) × (code c ≤ 122)

abbrev AllSmall : String → Type 0
AllSmall Text.[] = Unit
AllSmall (Text.◌∷◌ c s) = IsSmall c × AllSmall s

abbrev text_length : String → ℕ
text_length Text.[] = 0
text_length (Text.◌∷◌ c s) = suc (text_length s)

letter-IsSmall :
    (n : ℕ) (s : String) (c : Char) → AllSmall s → n < text_length s → IsSmall (letter n s c)
unfolding letter
letter-IsSmall n Text.[] c a h = absurd (omega arith)
letter-IsSmall zero (Text.◌∷◌ d s) c a h = a.0
letter-IsSmall (suc n) (Text.◌∷◌ d s) c a h = letter-IsSmall n s c a.1 (omega arith)

alphabet_small : AllSmall "abcdefghijklmnopqrstuvwxyz"
alphabet_small = omega arith

lower_char-cases : (c : Char) → (lower_char c ≡ c) ⊎ IsSmall (lower_char c)
unfolding lower_char
lower_char-cases c = elim (Bool-cases (leb 65 (code c) && leb (code c) 90)) [
  | inl e ↦
      let bound = (and-eq-true_iff _ _).0 e in
      let low : 65 ≤ code c = (leb_iff _ _).0 bound.0 in
      let high : code c ≤ 90 = (leb_iff _ _).0 bound.1 in
      rw e (
        inr (
          letter-IsSmall (code c - 65) "abcdefghijklmnopqrstuvwxyz" c alphabet_small (omega arith)))
  | inr e ↦ rw e (inl refl)
]

small_fixed : (c : Char) → IsSmall c → lower_char c ≡ c
unfolding lower_char
small_fixed c h = ground arith

lower_char_idem : (c : Char) → lower_char (lower_char c) ≡ lower_char c
lower_char_idem c = elim (lower_char-cases c) [
  | inl same ↦ rw same same
  | inr small ↦ small_fixed (lower_char c) small
]

pub canonical_model_id_idem :
    (s : String) → canonical_model_id (canonical_model_id s) ≡ canonical_model_id s
unfolding canonical_model_id
canonical_model_id_idem Text.[] = refl
canonical_model_id_idem (Text.◌∷◌ c s) = cc (lower_char_idem c, canonical_model_id_idem s)

small_alphanumeric : (c : Char) → IsSmall c → is_alphanumeric c ≡ true
unfolding is_alphanumeric
small_alphanumeric c h = ground arith

lower_char-alphanumeric :
    (c : Char) → is_alphanumeric c ≡ true → is_alphanumeric (lower_char c) ≡ true
lower_char-alphanumeric c h = elim (lower_char-cases c) [
  | inl same ↦ rw same h
  | inr small ↦ small_alphanumeric (lower_char c) small
]

small_label : (c : Char) → IsSmall c → is_label_char c ≡ true
unfolding is_label_char
small_label c h = ground (arith, small_alphanumeric c h)

lower_char-label : (c : Char) → is_label_char c ≡ true → is_label_char (lower_char c) ≡ true
lower_char-label c h = elim (lower_char-cases c) [
  | inl same ↦ rw same h
  | inr small ↦ small_label (lower_char c) small
]

label_rest-canonical :
    (n : ℕ) (s : String) → label_rest n s ≡ true → label_rest n (canonical_model_id s) ≡ true
unfolding label_rest canonical_model_id
label_rest-canonical n Text.[] h = refl
label_rest-canonical zero (Text.◌∷◌ c s) h = h
label_rest-canonical (suc n) (Text.◌∷◌ c s) h =
    let (a, b) = (and-eq-true_iff _ _).0 h in
    (and-eq-true_iff _ _).1 (lower_char-label c a, label_rest-canonical n s b)

-- A label in lower case is a label.
pub safe_label-canonical :
    (s : String) → safe_label s ≡ true → safe_label (canonical_model_id s) ≡ true
unfolding safe_label canonical_model_id
safe_label-canonical Text.[] h = h
safe_label-canonical (Text.◌∷◌ c s) h =
    let (a, b) = (and-eq-true_iff _ _).0 h in
    (and-eq-true_iff _ _).1 (lower_char-alphanumeric c a, label_rest-canonical 79 s b)
