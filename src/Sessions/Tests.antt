-- ===== src/Sessions/Tests.antt =====
-- Sessions and their claims at concrete inputs.
use ycm_harness.Common.{
  ◌≡◌, refl, ◌↔◌, ◌⊎◌, ◌≢◌, sym, ap, ◌∙◌, subst, String, true, false, none, some, [], ◌∷◌, lookup,
  assign, trim, In, code_point_host, is_some, returns, ◌>>=◌, ◌>>◌, require, eq_iff, Keyed,
  not-In-nil, In-cons, arith, inl, inr, delete,
}
use ycm_harness.Schema.Legacy.{WorktreeStatus}
use ycm_harness.Schema.Lean.{State, Goal, GoalStatus, standard, local, SessionClaim, empty_state_v3}
use ycm_harness.Sessions.{
  text, read_claim, claims_of, find_claim_for_goal, first_claim, claim_session,
  release_claims_for_goal, Paths, SessionScopeContext, resolve_scoped_goal, text_of, claimed_goal,
  goal_by_worktree,
}
use ycm_harness.Sessions.Entries.{Tidy}
use ycm_harness.Sessions.Exclusive.{Kept, Holds, claim_session_exclusive}
use ycm_harness.Sessions.Blocked.{Free, claim_session_iff}
use ycm_harness.Sessions.Scope.{
  Claimed, Housed, resolve_scoped_goal_owned, release_claims_for_goal_iff,
}

abbrev goal : Goal
goal = record {
  id = "g1";
  title = "G";
  description = none;
  status = GoalStatus.active;
  assurance = standard;
  backend = local;
  active_ticket_id = none;
  worktree_path = none;
  branch = none;
  base_sha = none;
  worktree_status = WorktreeStatus.pending;
  stop_enforcement = false;
  created_at = "2024";
  updated_at = "2024";
}

abbrev claim : SessionClaim
claim = record { goal_id = "g1"; claimed_at = "2024"; last_seen_at = "2024" }

abbrev state : State
state = record (empty_state_v3 "2024") {
  goals = ("g1", goal) ∷ [];
  session_claims = ("s1", claim) ∷ [];
}

abbrev Entry : Type 0
Entry = String × SessionClaim

same_pair : {e : Entry} → In {A = Entry} e (("s1", claim) ∷ []) → e ≡ ("s1", claim)
same_pair i = elim (In-cons i) [ inl e ↦ e | inr n ↦ absurd (not-In-nil n) ]

state_Kept : Kept state
unfolding text trim empty_state_v3
state_Kept = (
  λ k c i.
      let e : ◌≡◌ {A = Entry} (k, c) ("s1", claim) = same_pair i in
      subst (λ (p : Entry). Tidy (p.0) (p.1)) (sym e) tidy,
  λ j k b c i i' q.
      let e : ◌≡◌ {A = Entry} (j, b) ("s1", claim) = same_pair i in
      let f : ◌≡◌ {A = Entry} (k, c) ("s1", claim) = same_pair i' in
      ap (λ (p : Entry). p.0) e ∙ sym (ap (λ (p : Entry). p.0) f),
)
  where
    tidy : Tidy "s1" claim
    tidy = (λ h. ground (arith, eq_iff "s1" ""), refl, refl, refl)

state_Keyed : Keyed state.session_claims
state_Keyed = (λ w i. not-In-nil i, tt)

abbrev claimed : State
claimed = record state { session_claims = ("s1", record claim { last_seen_at = "2025" }) ∷ [] }

claim_returns : claim_session code_point_host state "s1" "g1" "2025" 0 ≡ returns claimed
unfolding claim_session find_claim_for_goal first_claim claims_of read_claim text trim lookup assign
    delete ◌>>=◌ ◌>>◌ require empty_state_v3
claim_returns = refl

tidy_text : text "g1" ≡ some "g1"
unfolding text trim
tidy_text = refl

tidy_time : text "2025" ≡ some "2025"
unfolding text trim
tidy_time = refl

claim_session_exclusive_example : Kept claimed × Holds claimed (trim "s1") "g1" "2025"
claim_session_exclusive_example =
    claim_session_exclusive code_point_host state "s1" "g1" "2025" 0 state_Kept claimed tidy_text
      tidy_time claim_returns

claim_session_iff_example :
    ((s' : State) × (claim_session code_point_host state "s2" "g1" "2025" 0 ≡ returns s')) ↔ (
      (trim "s2" ≢ "")
      × (is_some (lookup "g1" state.goals) ≡ true)
      × Free code_point_host state (trim "s2") "g1" 0)
claim_session_iff_example =
    claim_session_iff code_point_host state "s2" "g1" "2025" 0 state_Kept state_Keyed

abbrev paths : Paths
paths = record {
  resolve = λ a b. b;
  resolve_one = λ a. a;
  relative = λ a b. "..";
  is_absolute = λ a. false;
}

abbrev context : SessionScopeContext
context = record { session_id = some "s1"; cwd = none; root = none }

resolved : resolve_scoped_goal paths state context ≡ some goal
unfolding resolve_scoped_goal claims_of read_claim text trim lookup goal_by_worktree empty_state_v3
resolved = refl

resolve_scoped_goal_owned_example :
    Claimed state context goal
    ⊎ ((claimed_goal state (text_of context.session_id) ≡ none) × Housed paths state context goal)
resolve_scoped_goal_owned_example = resolve_scoped_goal_owned paths state context goal resolved

release_claims_for_goal_iff_example :
    In ("s1", claim) (release_claims_for_goal state "g1").session_claims
    ↔ (In ("s1", claim) state.session_claims × (claim.goal_id ≢ "g1"))
release_claims_for_goal_iff_example = release_claims_for_goal_iff state "g1" "s1" claim state_Keyed
