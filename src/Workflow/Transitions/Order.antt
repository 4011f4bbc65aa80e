-- ===== src/Workflow/Transitions/Order.antt =====
-- What `evaluatePhaseTransition` allows, and what a sequence of allowed transitions must visit.
use ycm_harness.Common.{
  ℕ, ◌+◌, ◌≤◌, ◌≡◌, refl, ap, ◌↔◌, true, Option, none, some, List, [], ◌∷◌, ◌⊎◌, inl, inr, arith,
  In, here, there,
}
use native.Mathlib.Decide.{ℕ_discrete}
use ycm_harness.Schema.Legacy.{PhaseKind, explore, discuss, design, plan, execute, validate, finish}
use ycm_harness.Workflow.Transitions.{evaluate_phase_transition, next_phase_kind}

-- The place of a phase in the standard procedure, from 0.
abbrev pub rank : PhaseKind → ℕ
rank explore = 0
rank discuss = 1
rank design = 2
rank plan = 3
rank execute = 4
rank validate = 5
rank finish = 6

-- A goal with no phase may enter the first; any other may go back, stay, or go on by one.
abbrev pub Allowed : Option PhaseKind → PhaseKind → Type 0
Allowed none target = target ≡ explore
Allowed (some current) target = rank target ≤ rank current + 1

explore_iff :
    (target : PhaseKind)
    → ((evaluate_phase_transition none target).allowed ≡ true) ↔ (target ≡ explore)
unfolding evaluate_phase_transition
explore_iff explore = (λ _. refl, λ _. refl)
explore_iff _ = (λ h. cc, λ h. cc)

from_iff :
    (current target : PhaseKind)
    → ((evaluate_phase_transition (some current) target).allowed ≡ true)
      ↔ (rank target ≤ rank current + 1)
unfolding evaluate_phase_transition
from_iff explore explore = (λ _. omega arith, λ _. refl)
from_iff explore discuss = (λ _. omega arith, λ _. refl)
from_iff c t = ground arith

-- A transition is allowed exactly when it enters the first phase of a fresh goal, or stays, goes
-- back, or goes on by one phase.
pub transition_iff :
    (current : Option PhaseKind) (target : PhaseKind)
    → ((evaluate_phase_transition current target).allowed ≡ true) ↔ Allowed current target
transition_iff none target = explore_iff target
transition_iff (some current) target = from_iff current target

rank_inj : (a b : PhaseKind) → rank a ≡ rank b → a ≡ b
rank_inj explore b h = ground arith
rank_inj _ b h = ground arith

-- The phases that a goal has entered, the last one first, by allowed transitions.
pub data Run : Option PhaseKind → List PhaseKind → Type 0 where
  start : Run none []
  enter :
      {current : Option PhaseKind} {visited : List PhaseKind} (target : PhaseKind)
      → Run current visited
      → (evaluate_phase_transition current target).allowed ≡ true
      → Run (some target) (target ∷ visited)

abbrev pub UpTo : PhaseKind → Option PhaseKind → Type 0
UpTo j none = ⊥
UpTo j (some k) = rank j ≤ rank k

UpTo-step :
    (j target : PhaseKind) (current : Option PhaseKind)
    → Allowed current target
    → rank j ≤ rank target
    → (j ≡ target) ⊎ UpTo j current
UpTo-step j target none a h = inl (rank_inj j target (omega (arith, ap rank a)))
UpTo-step j target (some c) a h = elim (ℕ_discrete (rank j) (rank target)) [
  | yes same ↦ inl (rank_inj j target same)
  | no less ↦ inr (omega arith)
]

-- Whatever way back and forth a goal took, every phase up to the one it is in was entered.
pub Run-In :
    {current : Option PhaseKind} {visited : List PhaseKind}
    → Run current visited
    → (j : PhaseKind) → UpTo j current
    → In j visited
Run-In start j h = absurd h
Run-In (enter {current} target run ok) j h =
    elim (UpTo-step j target current ((transition_iff current target).0 ok) h) [
      | inl same ↦ rw same here
      | inr up ↦ there (Run-In run j up)
    ]

-- `nextPhaseKind` names the phase whose place is one higher, and nothing after the last.
pub next_phase_kind_iff :
    (current next : PhaseKind)
    → (next_phase_kind (some current) ≡ some next) ↔ (rank next ≡ rank current + 1)
unfolding next_phase_kind
next_phase_kind_iff explore next = ground arith
next_phase_kind_iff _ next = ground arith
