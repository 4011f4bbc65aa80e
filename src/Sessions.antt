-- ===== src/Sessions.antt =====
-- src/state/session-claims.ts: which session works on which goal. The paths of the host are
-- parameters.
pub mod Entries
pub mod Exclusive
pub mod Blocked
pub mod Scope
mod Tests
use Prim.Native.Char.{code}
use Prim.Native.String
use ycm_harness.Common.{
  ℕ, ◌+◌, String, Bool, true, false, not, ◌&&◌, ◌||◌, Option, none, some, List, [], ◌∷◌, ◌==◌, Host,
  Dict, ltb, eqb, values, or_else, if◌then◌else◌, trim, lookup, assign, delete, is_some, Outcome,
  returns, throws, ◌>>=◌, ◌>>◌, require,
}
use ycm_harness.Schema.Lean.{State, Goal, SessionClaim}
use ycm_harness.Tickets.Machine.{Error, session_required, unknown_goal, claimed_by}

-- `SESSION_CLAIM_TTL_MS`.
abbrev pub session_claim_ttl_ms : ℕ
session_claim_ttl_ms = 86400000

-- `text(value)`, for a text.
unfoldable pub text : String → Option String
unfolding trim
text value = if trim value == "" then none else some (trim value)

-- One turn of the loop of `claimsOf`.
unfoldable pub read_claim : String → SessionClaim → Option SessionClaim
unfolding text
read_claim session_id c = if session_id == "" then none else elim (text c.goal_id) [
  | none ↦ none
  | some goal_id ↦ elim (text c.claimed_at) [
    | none ↦ none
    | some claimed_at ↦ elim (text c.last_seen_at) [
      | none ↦ none
      | some last_seen ↦
          some (record { goal_id = goal_id; claimed_at = claimed_at; last_seen_at = last_seen })
    ]
  ]
]

-- `claimsOf(state)`.
unfoldable pub claims_of : Dict SessionClaim → Dict SessionClaim
unfolding read_claim
claims_of [] = []
claims_of ((session_id, c) ∷ d) = elim (read_claim session_id c) [
  | none ↦ claims_of d
  | some claim ↦ (session_id, claim) ∷ claims_of d
]

-- `isClaimStale(claim, nowMs)`.
abbrev pub is_claim_stale : Host → SessionClaim → ℕ → Bool
is_claim_stale host claim now_ms = elim (host.date_parse claim.last_seen_at) [
  | none ↦ true
  | some last_seen ↦ ltb (last_seen + session_claim_ttl_ms) now_ms
]

unfoldable pub first_claim : Dict SessionClaim → String → Option (String × SessionClaim)
first_claim [] goal_id = none
first_claim ((session_id, claim) ∷ d) goal_id =
    if claim.goal_id == goal_id then some (session_id, claim) else first_claim d goal_id

-- `findClaimForGoal(state, goalId)`.
unfoldable pub find_claim_for_goal : Dict SessionClaim → String → Option (String × SessionClaim)
unfolding first_claim claims_of
find_claim_for_goal claims goal_id = first_claim (claims_of claims) goal_id

-- The holder of a fresh claim that is not the session.
abbrev pub other_holder : Host → String → ℕ → Option (String × SessionClaim) → Option String
other_holder host id now_ms none = none
other_holder host id now_ms (some (holder, claim)) =
    if not (holder == id) && not (is_claim_stale host claim now_ms) then some holder else none

abbrev pub without_holder :
    String → Option (String × SessionClaim) → Dict SessionClaim → Dict SessionClaim
without_holder id none claims = claims
without_holder id (some (holder, claim)) claims =
    if holder == id then claims else delete holder claims

abbrev pub claimed_since : Option SessionClaim → String → String → String
claimed_since none goal_id now = now
claimed_since (some prior) goal_id now = if prior.goal_id == goal_id then prior.claimed_at else now

abbrev pub new_claim : Option SessionClaim → String → String → SessionClaim
new_claim prior goal_id now = record {
  goal_id = goal_id;
  claimed_at = claimed_since prior goal_id now;
  last_seen_at = now;
}

abbrev pub unheld : Option String → Outcome Error (Unit {0})
unheld none = returns tt
unheld (some holder) = throws (claimed_by holder)

-- `claimSession(state, sessionId, goalId, nowIso, nowMs)`.
unfoldable pub claim_session : Host → State → String → String → String → ℕ → Outcome Error State
claim_session host state session_id goal_id now now_ms = do
  require (not (trim session_id == "")) session_required
  require (is_some (lookup goal_id state.goals)) (unknown_goal goal_id)
  unheld (
      other_holder host (trim session_id) now_ms (find_claim_for_goal state.session_claims goal_id))
  let claims : Dict SessionClaim =
      without_holder (trim session_id) (find_claim_for_goal state.session_claims goal_id)
        state.session_claims
  returns (record state {
    session_claims =
        assign (trim session_id) (new_claim (lookup (trim session_id) claims) goal_id now) claims;
  })

-- `refreshSessionClaim(state, sessionId, nowIso)`.
unfoldable pub refresh_session_claim : State → String → String → State
refresh_session_claim state session_id now = elim (lookup session_id state.session_claims) [
  | none ↦ state
  | some prior ↦ record state {
    session_claims = assign session_id (record prior { last_seen_at = now }) state.session_claims;
  }
]

drop_goal : Dict SessionClaim → String → Dict SessionClaim
drop_goal [] goal_id = []
drop_goal ((session_id, claim) ∷ d) goal_id =
    let rest = drop_goal d goal_id in
    if claim.goal_id == goal_id then delete session_id rest else (session_id, claim) ∷ rest

-- `releaseClaimsForGoal(state, goalId)`.
unfoldable pub release_claims_for_goal : State → String → State
unfolding drop_goal
release_claims_for_goal state goal_id = record state {
  session_claims = drop_goal state.session_claims goal_id;
}

-- `path.resolve`, of two and of one argument, `path.relative` and `path.isAbsolute`.
pub record Paths : Type 0 where
  pub resolve : String → String → String
  pub resolve_one : String → String
  pub relative : String → String → String
  pub is_absolute : String → Bool

abbrev starts_with_dots : String → Bool
starts_with_dots String.[] = false
starts_with_dots (String.◌∷◌ c String.[]) = false
starts_with_dots (String.◌∷◌ c (String.◌∷◌ d s)) = eqb (code c) 46 && eqb (code d) 46

-- `cwdInsideWorktree(cwd, root, worktreePath)`.
unfoldable pub cwd_inside_worktree : Paths → String → String → String → Bool
cwd_inside_worktree paths cwd root worktree_path =
    let rel = paths.relative (paths.resolve root worktree_path) (paths.resolve_one cwd) in
    rel == "" || not (starts_with_dots rel) && not (paths.is_absolute rel)

abbrev pub text_of : Option String → Option String
text_of none = none
text_of (some s) = text s

-- `goalByWorktree(state, cwd, root)`.
unfoldable pub goal_by_worktree : Paths → List Goal → String → String → Option Goal
unfolding text
goal_by_worktree paths [] cwd root = none
goal_by_worktree paths (g ∷ gs) cwd root =
    let rest = goal_by_worktree paths gs cwd root in
    elim (text_of g.worktree_path) [
      | none ↦ rest
      | some worktree_path ↦
          if cwd_inside_worktree paths cwd root worktree_path then some g else rest
    ]

-- `SessionScopeContext`.
pub record SessionScopeContext : Type 0 where
  pub session_id : Option String
  pub cwd : Option String
  pub root : Option String

-- The goal that the session has claimed.
abbrev pub claimed_goal : State → Option String → Option Goal
claimed_goal state none = none
claimed_goal state (some session_id) = elim (lookup session_id (claims_of state.session_claims)) [
  | none ↦ none
  | some claim ↦ lookup claim.goal_id state.goals
]

abbrev pub or_text : Option String → String → String
or_text none fallback = fallback
or_text (some s) fallback = s

-- The goal whose worktree holds the working directory.
abbrev pub housed_goal : Paths → State → Option String → Option String → Option Goal
housed_goal paths state none root = none
housed_goal paths state (some cwd) root =
    goal_by_worktree paths (values state.goals) cwd (or_text root cwd)

-- `resolveScopedGoal(state, ctx)`.
unfoldable pub resolve_scoped_goal : Paths → State → SessionScopeContext → Option Goal
unfolding text
resolve_scoped_goal paths state ctx =
    or_else (claimed_goal state (text_of ctx.session_id))
      (housed_goal paths state (text_of ctx.cwd) (text_of ctx.root))
