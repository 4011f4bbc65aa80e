-- ===== src/Workflow/Transitions.antt =====
-- src/workflow/transitions.ts and `nextPhaseKind` of src/workflow/next-action.ts. A missing index,
-- -1 in the source, is `none`.
pub mod Order
use ycm_harness.Common.{
  ℕ, suc, ◌+◌, ◌-◌, ◌≡◌, refl, Bool, true, false, Option, none, some, List, [], ◌∷◌, ltb, eqb,
  length, get_elem?, test, if◌then◌else◌,
}
use ycm_harness.Schema.Legacy.{
  PhaseKind, explore, discuss, design, plan, execute, validate, finish, PhaseStatus, complete,
  skipped,
}

unfoldable pub PhaseKind-discrete : Discrete PhaseKind
PhaseKind-discrete = hlevel

unfoldable pub same_kind : PhaseKind → PhaseKind → Bool
unfolding PhaseKind-discrete
same_kind a b = test (PhaseKind-discrete a b)

abbrev pub phase_order : List PhaseKind
phase_order = explore ∷ discuss ∷ design ∷ plan ∷ execute ∷ validate ∷ finish ∷ []

abbrev pub first_phase : PhaseKind
first_phase = explore

index_from : ℕ → PhaseKind → List PhaseKind → Option ℕ
index_from i k [] = none
index_from i k (x ∷ xs) = if same_kind x k then some i else index_from (suc i) k xs

-- `PHASE_ORDER.indexOf(kind)`.
unfoldable pub index_of : PhaseKind → Option ℕ
unfolding index_from same_kind
index_of k = index_from 0 k phase_order

pub data Reason : Type 0 where
  first_phase_must_be : PhaseKind → Reason
  unknown_phase : PhaseKind → PhaseKind → Reason
  rolling_back : Reason
  cannot_skip : PhaseKind → PhaseKind → Reason

pub record TransitionDecision : Type 0 where
  pub allowed : Bool
  pub reason : Option Reason

abbrev decide_order : PhaseKind → PhaseKind → Option ℕ → Option ℕ → TransitionDecision
decide_order c t (some from) (some to) =
    if eqb to (from + 1)
    then record { allowed = true; reason = none }
    else if ltb to from
    then record { allowed = true; reason = some rolling_back }
    else record { allowed = false; reason = some (cannot_skip c t) }
decide_order c t (some from) none = record { allowed = false; reason = some (unknown_phase c t) }
decide_order c t none to = record { allowed = false; reason = some (unknown_phase c t) }

-- `evaluatePhaseTransition({ current, target })`.
unfoldable pub evaluate_phase_transition : Option PhaseKind → PhaseKind → TransitionDecision
unfolding index_of same_kind
evaluate_phase_transition none target =
    if same_kind target first_phase
    then record { allowed = true; reason = none }
    else record { allowed = false; reason = some (first_phase_must_be target) }
evaluate_phase_transition (some current) target =
    if same_kind current target
    then record { allowed = true; reason = none }
    else decide_order current target (index_of current) (index_of target)

unfoldable pub is_terminal_phase_status : PhaseStatus → Bool
is_terminal_phase_status complete = true
is_terminal_phase_status skipped = true
is_terminal_phase_status _ = false

abbrev kind_after : Option ℕ → Option PhaseKind
kind_after none = none
kind_after (some i) = if eqb i (length phase_order - 1) then none else get_elem? phase_order (i + 1)

-- `nextPhaseKind(current)`.
unfoldable pub next_phase_kind : Option PhaseKind → Option PhaseKind
unfolding index_of
next_phase_kind none = some first_phase
next_phase_kind (some current) = kind_after (index_of current)
