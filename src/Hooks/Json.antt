-- ===== src/Hooks/Json.antt =====
-- Parsed JSON values, which src/hooks reads without a schema. Numbers are the natural ones.
use ycm_harness.Common.{
  ℕ, String, Bool, true, false, Option, none, some, List, [], ◌∷◌, ◌==◌, trim, if◌then◌else◌,
}

mutual
  pub data Json : Type 0 where
    null : Json
    bool : Bool → Json
    number : ℕ → Json
    string : String → Json
    array : Items → Json
    object : Fields → Json

  pub data Items : Type 0 where
    no_items : Items
    item : Json → Items → Items

  pub data Fields : Type 0 where
    no_fields : Fields
    field : String → Json → Fields → Fields

-- `record(value)`
abbrev pub record_of : Option Json → Option Fields
record_of none = none
record_of (some (object r)) = some r
record_of _ = none

-- `text(value)`
abbrev pub text_of : Option Json → Option String
text_of none = none
text_of (some (string s)) = let t = trim s in if t == "" then none else some t
text_of _ = none

-- `fields[key]`, with one entry per key.
unfoldable pub get : String → Fields → Option Json
get key no_fields = none
get key (field k v rest) = if k == key then some v else get key rest

abbrev with_record : Option Fields → List Fields → List Fields
with_record none rest = rest
with_record (some r) rest = r ∷ rest

unfoldable pub records_in : Fields → List Fields
records_in no_fields = []
records_in (field k v rest) = with_record (record_of (some v)) (records_in rest)

-- `recordsOf(value)`
abbrev pub records_of : Option Fields → List Fields
records_of none = []
records_of (some r) = records_in r

-- `value === true` and `value === false`
abbrev pub is_true : Option Json → Bool
is_true (some (bool true)) = true
is_true _ = false

abbrev pub is_false : Option Json → Bool
is_false (some (bool false)) = true
is_false _ = false
