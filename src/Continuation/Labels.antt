-- ===== src/Continuation/Labels.antt =====
-- src/continuation/cost-policy.ts: labels, as the schema of the execution policy takes them, and
-- what its evaluator does with lists of them.
pub mod Lower
pub mod Unique
pub mod Join
use Prim.Native.Char.{Char, code, nul}
use Prim.Native.String as Text
use ycm_harness.Common.{
  ℕ, zero, suc, ◌-◌, String, Bool, true, false, not, ◌&&◌, ◌||◌, List, [], ◌∷◌, leb, eqb, ◌==◌,
  filter, if◌then◌else◌, sort, insert, code_le,
}

-- `[A-Za-z0-9]`
unfoldable pub is_alphanumeric : Char → Bool
is_alphanumeric c =
    leb 65 (code c) && leb (code c) 90
    || leb 97 (code c) && leb (code c) 122
    || leb 48 (code c) && leb (code c) 57

-- `[A-Za-z0-9._:-]`
unfoldable pub is_label_char : Char → Bool
unfolding is_alphanumeric
is_label_char c =
    is_alphanumeric c || eqb (code c) 46 || eqb (code c) 95 || eqb (code c) 58 || eqb (code c) 45

-- `[A-Za-z0-9._:-]{0,n}$`
unfoldable pub label_rest : ℕ → String → Bool
label_rest n Text.[] = true
label_rest zero (Text.◌∷◌ c s) = false
label_rest (suc n) (Text.◌∷◌ c s) = is_label_char c && label_rest n s

-- `SAFE_LABEL`: `/^[A-Za-z0-9][A-Za-z0-9._:-]{0,79}$/`
unfoldable pub safe_label : String → Bool
safe_label Text.[] = false
safe_label (Text.◌∷◌ c s) = is_alphanumeric c && label_rest 79 s

unfoldable pub letter : ℕ → String → Char → Char
letter n Text.[] c = c
letter zero (Text.◌∷◌ d s) c = d
letter (suc n) (Text.◌∷◌ d s) c = letter n s c

unfoldable pub lower_char : Char → Char
unfolding letter
lower_char c =
    if leb 65 (code c) && leb (code c) 90
    then letter (code c - 65) "abcdefghijklmnopqrstuvwxyz" c
    else c

-- `canonicalModelId(value)`, at a label, whose characters are ASCII.
unfoldable pub canonical_model_id : String → String
unfolding lower_char
canonical_model_id Text.[] = Text.[]
canonical_model_id (Text.◌∷◌ c s) = Text.◌∷◌ (lower_char c) (canonical_model_id s)

-- `[...new Set(values)]`: the first occurrence of each.
unfoldable pub unique : List String → List String
unique [] = []
unique (x ∷ xs) = x ∷ filter (λ y. not (y == x)) (unique xs)

-- `uniqueSorted(values)`
unfoldable pub unique_sorted : List String → List String
unfolding unique sort insert
unique_sorted values = sort code_le (unique values)

unfoldable pub append_text : String → String → String
append_text Text.[] t = t
append_text (Text.◌∷◌ c s) t = Text.◌∷◌ c (append_text s t)

-- `values.join("\0")`
unfoldable pub join_nul : List String → String
unfolding append_text
join_nul [] = Text.[]
join_nul (x ∷ []) = x
join_nul (x ∷ y ∷ ys) = append_text x (Text.◌∷◌ nul (join_nul (y ∷ ys)))
