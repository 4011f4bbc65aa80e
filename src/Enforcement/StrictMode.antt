-- ===== src/Enforcement/StrictMode.antt =====
-- src/enforcement/strict-mode.ts. The environment is an argument.
use Prim.Native.Char.{code}
use ycm_harness.Common.{
  ℕ, ◌+◌, ◌-◌, ◌*◌, String, Bool, true, false, not, ◌&&◌, ◌||◌, Option, none, some, ◌==◌, leb, eqb,
  if◌then◌else◌, lower_is, trim_start,
}

pub record Env : Type 0 where
  pub strict_gates : Option String
  pub allow_orchestrator : Option String
  pub review_min_seconds : Option String

-- `[...].includes(raw.toLowerCase())`.
abbrev says_no : String → Bool
says_no raw = lower_is raw "0" || lower_is raw "false" || lower_is raw "no" || lower_is raw "off"

abbrev says_yes : String → Bool
says_yes raw = lower_is raw "1" || lower_is raw "true" || lower_is raw "yes" || lower_is raw "on"

-- `strictGatesEnabled()`.
unfoldable pub strict_gates_enabled : Env → Bool
unfolding lower_is
strict_gates_enabled env = elim env.strict_gates [
  | none ↦ true
  | some raw ↦ if raw == "" then true else not (says_no raw)
]

-- `allowOrchestratorReview()`.
unfoldable pub allow_orchestrator_review : Env → Bool
unfolding lower_is
allow_orchestrator_review env = elim env.allow_orchestrator [
  | none ↦ false
  | some raw ↦ if raw == "" then false else says_yes raw
]

-- The digits at the front of a text, after those already read.
digits_from : ℕ → String → ℕ
digits_from n String.[] = n
digits_from n (String.◌∷◌ c s) =
    let rest = digits_from (10 * n + (code c - 48)) s in
    if leb 48 (code c) && leb (code c) 57 then rest else n

-- `Number.parseInt(raw, 10)` where that is a number and not negative, 0 otherwise: no digit gives
-- `NaN`, and a minus sign a number that is not positive.
parse_seconds : String → ℕ
unfolding digits_from
parse_seconds String.[] = 0
parse_seconds (String.◌∷◌ c s) =
    if eqb (code c) 43 then digits_from 0 s else digits_from 0 (String.◌∷◌ c s)

-- `reviewMinDeliberationSeconds()`.
unfoldable pub review_min_deliberation_seconds : Env → ℕ
unfolding parse_seconds strict_gates_enabled trim_start
review_min_deliberation_seconds env = elim env.review_min_seconds [
  | none ↦ if strict_gates_enabled env then 5 else 0
  | some raw ↦
      if raw == ""
      then (if strict_gates_enabled env then 5 else 0)
      else parse_seconds (trim_start raw)
]
