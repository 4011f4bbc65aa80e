-- ===== src/Sessions/Blocked.antt =====
-- When `claimSession` of src/state/session-claims.ts throws.
use ycm_harness.Common.{
  ◌≡◌, ◌≢◌, refl, sym, subst, ◌↔◌, ◌⊎◌, ℕ, ◌+◌, ◌<◌, ltb_iff, Option-cases, String, true, false,
  Option, none, some, arith, eq_iff, ◌==◌, lookup, assign, trim, In, Host, Bool-cases, is_some, inl,
  inr, Keyed, Keyed-same, Outcome, returns, throws, ◌>>◌, require, Ends, Ends-at, Ends-require,
  Ends-then,
}
use ycm_harness.Schema.Lean.{State, SessionClaim}
use ycm_harness.Tickets.Machine.{Error, claimed_by}
use ycm_harness.Sessions.{
  is_claim_stale, first_claim, find_claim_for_goal, other_holder, unheld, claim_session,
  without_holder, new_claim,
}
use ycm_harness.Sessions.Entries.{first_claim-some, first_claim-none}
use ycm_harness.Sessions.Exclusive.{Kept, find_lem}

-- The time that the claim was last seen at cannot be read, or is more than 24 hours ago.
abbrev pub Stale : Host → SessionClaim → ℕ → Type 0
Stale host c now_ms =
    (host.date_parse c.last_seen_at ≡ none)
    ⊎ ((seen : ℕ) × (host.date_parse c.last_seen_at ≡ some seen) × (seen + 86400000 < now_ms))

is_claim_stale_iff :
    (host : Host) (c : SessionClaim) (now_ms : ℕ)
    → (is_claim_stale host c now_ms ≡ true) ↔ Stale host c now_ms
is_claim_stale_iff host c now_ms = elim (Option-cases (host.date_parse c.last_seen_at)) [
  | inl unread ↦ rw (is_claim_stale, unread) (λ h. inl refl, λ h. refl)
  | inr (seen, at) ↦
      rw (is_claim_stale, at)
        (
          λ h. inr (seen, refl, (ltb_iff _ _).0 h),
          λ h. elim h [
            | inl e ↦ cc
            | inr (other, e, late) ↦
                let same : other ≡ seen = ground arith in (ltb_iff _ _).1 (rw same at late)
          ],
        )
]

-- Every claim of another session on the goal is stale.
abbrev pub Free : Host → State → String → String → ℕ → Type 0
Free host s id goal_id now_ms =
    (k : String) (c : SessionClaim)
    → In (k, c) s.session_claims
    → c.goal_id ≡ goal_id
    → k ≢ id
    → Stale host c now_ms

module _ (host : Host) (s : State) (id goal_id : String) (now_ms : ℕ) (kept : Kept s)
    (keyed : Keyed s.session_claims) where
  thrown :
      {k : String} → ◌≡◌ {A = Outcome Error (Unit {0})} (throws (claimed_by k)) (returns tt) → ⊥
  thrown h = cc

  Free-of :
      (o : Option (String × SessionClaim))
      → first_claim s.session_claims goal_id ≡ o
      → unheld (other_holder host id now_ms o) ≡ returns tt
      → Free host s id goal_id now_ms
  Free-of none h q k c i g n = absurd (first_claim-none s.session_claims goal_id k c h i g)
  Free-of (some (holder, b)) h q k c i g n =
      let held = first_claim-some s.session_claims goal_id holder b h in
      let same : k ≡ holder = kept.1 k holder c b i (held.0) (rw (g, held.1) refl) in
      let at : b ≡ c =
        Keyed-same k b c s.session_claims keyed
          (subst (λ n. In (n, b) s.session_claims) (sym same) (held.0)) i in
      let other : (holder == id) ≡ false = differ holder (λ e. n (rw (same, e) refl)) in
      elim (Bool-cases (is_claim_stale host b now_ms)) [
        | inl st ↦
            (is_claim_stale_iff host c now_ms).0
              (subst (λ x. is_claim_stale host x now_ms ≡ true) at st)
        | inr st ↦ absurd (thrown (rw (other, st) at q))
      ]
    where
      differ : (holder : String) → holder ≢ id → (holder == id) ≡ false
      differ holder f = elim (Bool-cases (holder == id)) [
        | inl e ↦ absurd (f ((eq_iff _ _).0 e))
        | inr e ↦ e
      ]

  of-Free :
      (o : Option (String × SessionClaim))
      → first_claim s.session_claims goal_id ≡ o
      → Free host s id goal_id now_ms
      → other_holder host id now_ms o ≡ none
  of-Free none h f = refl
  of-Free (some (holder, b)) h f = elim (Bool-cases (holder == id)) [
    | inl e ↦ rw e refl
    | inr e ↦
        let held = first_claim-some s.session_claims goal_id holder b h in
        let stale =
          (is_claim_stale_iff host b now_ms).1
            (f holder b (held.0) (held.1) (λ q. no (rw ((eq_iff holder id).1 q) at e))) in
        rw (e, stale) refl
  ]
    where
      no : true ≡ false → ⊥
      no q = cc

-- The state that `claimSession` returns.
abbrev claimed_state : State → String → String → String → State
claimed_state s session_id goal_id now = record s {
  session_claims =
      let claims =
        without_holder (trim session_id) (find_claim_for_goal s.session_claims goal_id)
          s.session_claims in
      assign (trim session_id) (new_claim (lookup (trim session_id) claims) goal_id now) claims;
}

abbrev Claimable : Host → State → String → String → ℕ → Type 0
Claimable host s session_id goal_id now_ms =
    (trim session_id ≢ "")
    × (is_some (lookup goal_id s.goals) ≡ true)
    × Free host s (trim session_id) goal_id now_ms

claimable_lem :
    (host : Host) (s : State) (session_id goal_id now : String) (now_ms : ℕ)
    → Kept s
    → Keyed s.session_claims
    → Ends
        (λ s'. Claimable host s session_id goal_id now_ms)
        (claim_session host s session_id goal_id now now_ms)
unfolding claim_session
claimable_lem host s session_id goal_id now now_ms kept keyed = Ends-require _ (λ named.
    Ends-require _ (λ stored. Ends-then (λ q. Ends-at (
      λ e. ground (arith, named, eq_iff (trim session_id) ""),
      stored,
      Free-of host s (trim session_id) goal_id now_ms kept keyed
          (first_claim s.session_claims goal_id) refl
          (rw (find_lem s.session_claims goal_id (trim session_id) kept.0 kept.1) at q),
    ))))

-- When no two sessions hold the same goal and the claims read back as they are stored, `claimSession`
-- returns a state exactly when the session's identifier is not blank, the goal is stored, and every
-- claim of another session on the goal is stale: last seen more than 24 hours ago, or at a time that
-- cannot be read.
pub claim_session_iff :
    (host : Host) (s : State) (session_id goal_id now : String) (now_ms : ℕ)
    → Kept s
    → Keyed s.session_claims
    → ((s' : State) × (claim_session host s session_id goal_id now now_ms ≡ returns s')) ↔ (
        (trim session_id ≢ "")
        × (is_some (lookup goal_id s.goals) ≡ true)
        × Free host s (trim session_id) goal_id now_ms)
unfolding claim_session ◌>>◌ require
claim_session_iff host s session_id goal_id now now_ms kept keyed = (
  λ (s', h). (claimable_lem host s session_id goal_id now now_ms kept keyed).holds s' h,
  λ (named, stored, free).
      let open_goal =
        of-Free host s (trim session_id) goal_id now_ms kept keyed
          (first_claim s.session_claims goal_id) refl free in
      (
        claimed_state s session_id goal_id now,
        rw
            (
              claim_session,
              not_blank named,
              stored,
              find_lem s.session_claims goal_id (trim session_id) kept.0 kept.1,
              open_goal,
            )
            refl,
      ),
)
  where
    not_blank : trim session_id ≢ "" → (trim session_id == "") ≡ false
    not_blank f = elim (Bool-cases (trim session_id == "")) [
      | inl e ↦ absurd (f ((eq_iff _ _).0 e))
      | inr e ↦ e
    ]
