-- ===== src/Continuation/Labels/Join.antt =====
-- The joined texts that src/continuation/cost-policy.ts compares stand for lists of labels.
use Prim.Native.Char.{Char, code, nul}
use Prim.Native.String as Text
use ycm_harness.Common.{
  ℕ, zero, suc, ◌<◌, ◌≡◌, ◌≢◌, refl, ap, sym, String, true, and-eq-true_iff, List, [], ◌∷◌, arith,
  all,
}
use ycm_harness.Continuation.Labels.{
  is_alphanumeric, is_label_char, label_rest, safe_label, append_text, join_nul,
}

not_nul : (c : Char) → 0 < code c → nul ≢ c
not_nul c h e = absurd (pos (rw (← e) at h))
  where
    pos : 0 < code nul → ⊥
    pos q = elim q [ ]

abbrev NoNul : String → Type 0
NoNul Text.[] = Unit
NoNul (Text.◌∷◌ c s) = (0 < code c) × NoNul s

label_char_pos : (c : Char) → is_label_char c ≡ true → 0 < code c
unfolding is_label_char is_alphanumeric
label_char_pos c h = ground arith

alphanumeric_pos : (c : Char) → is_alphanumeric c ≡ true → 0 < code c
unfolding is_alphanumeric
alphanumeric_pos c h = ground arith

label_rest-NoNul : (n : ℕ) (s : String) → label_rest n s ≡ true → NoNul s
unfolding label_rest
label_rest-NoNul n Text.[] h = tt
label_rest-NoNul zero (Text.◌∷◌ c s) h = cc
label_rest-NoNul (suc n) (Text.◌∷◌ c s) h =
    let (a, b) = (and-eq-true_iff _ _).0 h in (label_char_pos c a, label_rest-NoNul n s b)

safe_label-NoNul : (s : String) → safe_label s ≡ true → NoNul s
unfolding safe_label
safe_label-NoNul Text.[] h = tt
safe_label-NoNul (Text.◌∷◌ c s) h =
    let (a, b) = (and-eq-true_iff _ _).0 h in (alphanumeric_pos c a, label_rest-NoNul 79 s b)

-- The first separator ends the first label.
append_nul-inj :
    (x y s t : String)
    → NoNul x
    → NoNul y
    → append_text x (Text.◌∷◌ nul s) ≡ append_text y (Text.◌∷◌ nul t)
    → (x ≡ y) × (s ≡ t)
unfolding append_text
append_nul-inj Text.[] Text.[] s t p q h = (refl, cc)
append_nul-inj Text.[] (Text.◌∷◌ d y) s t p q h = absurd (not_nul d q.0 (cc))
append_nul-inj (Text.◌∷◌ c x) Text.[] s t p q h = absurd (not_nul c p.0 (cc))
append_nul-inj (Text.◌∷◌ c x) (Text.◌∷◌ d y) s t p q h =
    let (e, f) = append_nul-inj x y s t p.1 q.1 (cc) in (cc, f)

append_nul-ne : (x y s : String) → NoNul y → append_text x (Text.◌∷◌ nul s) ≡ y → ⊥
unfolding append_text
append_nul-ne Text.[] Text.[] s q h = cc
append_nul-ne Text.[] (Text.◌∷◌ d y) s q h = not_nul d q.0 (cc)
append_nul-ne (Text.◌∷◌ c x) Text.[] s q h = cc
append_nul-ne (Text.◌∷◌ c x) (Text.◌∷◌ d y) s q h = append_nul-ne x y s q.1 (cc)

join-empty : (x : String) (xs : List String) → safe_label x ≡ true → join_nul (x ∷ xs) ≡ Text.[] → ⊥
unfolding safe_label join_nul append_text
join-empty Text.[] xs h e = cc
join-empty (Text.◌∷◌ c x) [] h e = cc
join-empty (Text.◌∷◌ c x) (y ∷ ys) h e = cc

-- Lists of labels are equal when the texts that join them are.
pub join_nul-inj :
    (xs ys : List String)
    → all safe_label xs ≡ true
    → all safe_label ys ≡ true
    → join_nul xs ≡ join_nul ys
    → xs ≡ ys
unfolding join_nul
join_nul-inj [] [] p q h = refl
join_nul-inj [] (y ∷ ys) p q h = absurd (join-empty y ys (((and-eq-true_iff _ _).0 q).0) (sym h))
join_nul-inj (x ∷ xs) [] p q h = absurd (join-empty x xs (((and-eq-true_iff _ _).0 p).0) h)
join_nul-inj (x ∷ []) (y ∷ []) p q h = ap (λ s. s ∷ []) h
join_nul-inj (x ∷ []) (y ∷ z ∷ zs) p q h =
    absurd (append_nul-ne y x _ (safe_label-NoNul x (((and-eq-true_iff _ _).0 p).0)) (sym h))
join_nul-inj (x ∷ w ∷ ws) (y ∷ []) p q h =
    absurd (append_nul-ne x y _ (safe_label-NoNul y (((and-eq-true_iff _ _).0 q).0)) h)
join_nul-inj (x ∷ w ∷ ws) (y ∷ z ∷ zs) p q h =
    let (a, b) = (and-eq-true_iff _ _).0 p in
    let (c, d) = (and-eq-true_iff _ _).0 q in
    let (e, f) = append_nul-inj x y _ _ (safe_label-NoNul x a) (safe_label-NoNul y c) h in
    let rest = join_nul-inj (w ∷ ws) (z ∷ zs) b d f in cc
