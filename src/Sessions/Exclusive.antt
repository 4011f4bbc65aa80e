-- ===== src/Sessions/Exclusive.antt =====
-- Who holds a goal after `claimSession` of src/state/session-claims.ts.
use ycm_harness.Common.{
  ◌≡◌, ◌≢◌, refl, inl, inr, ℕ, String, false, Option, none, some, arith, eq_iff, ◌==◌, Dict, lookup,
  assign, trim, In, Host, Bool-cases, returns, Ends, Ends-at, Ends-require, Ends-then, not-true,
}
use ycm_harness.Schema.Lean.{State, SessionClaim}
use ycm_harness.Sessions.{
  text, first_claim, find_claim_for_goal, without_holder, claimed_since, new_claim, claim_session,
}
use ycm_harness.Sessions.Entries.{
  Tidy, AllTidy, Exclusive, claims_of-Tidy, first_claim-some, first_claim-none, In-assign_entry,
  In-delete_entry, assign_entry, lookup-entry,
}

module _ (d : Dict SessionClaim) (goal_id id : String) (tidy : AllTidy d)
    (exclusive : Exclusive d) where
  pub find_lem : find_claim_for_goal d goal_id ≡ first_claim d goal_id
  unfolding find_claim_for_goal
  find_lem = rw (find_claim_for_goal, claims_of-Tidy d tidy) refl

  -- Once the old holder is gone, only the session itself can hold the goal.
  left_lem :
      (o : Option (String × SessionClaim))
      → first_claim d goal_id ≡ o
      → (k : String) (c : SessionClaim) → In (k, c) (without_holder id o d)
      → In (k, c) d × (c.goal_id ≡ goal_id → k ≡ id)
  left_lem none h k c i = (i, λ q. absurd (first_claim-none d goal_id k c h i q))
  left_lem (some (holder, b)) h k c i = elim (Bool-cases (holder == id)) [
    | inl e ↦
        let old : In (k, c) d = rw e at i in
        (
          old,
          λ q.
              (rw (← (eq_iff holder id).0 e)
                (exclusive k holder c b old (held.0) (rw (q, held.1) refl))),
        )
    | inr e ↦
        let (n, old) = In-delete_entry holder d (rw e at i) in
        (old, λ q. absurd (n (exclusive k holder c b old (held.0) (rw (q, held.1) refl))))
  ]
    where
      held : In (holder, b) d × (b.goal_id ≡ goal_id)
      held = first_claim-some d goal_id holder b h

-- The claims of a state, as the operations keep them.
abbrev pub Kept : State → Type 0
Kept s = AllTidy s.session_claims × Exclusive s.session_claims

-- The session holds the goal, and was seen at that time.
abbrev pub Holds : State → String → String → String → Type 0
Holds s id goal_id now =
    (c : SessionClaim) × In (id, c) s.session_claims
    × (c.goal_id ≡ goal_id)
    × (c.last_seen_at ≡ now)

module _ (d : Dict SessionClaim) (goal_id id now : String) (prior : Option SessionClaim)
    (old : (k : String) (c : SessionClaim)
      → In (k, c) d
      → Tidy k c × (c.goal_id ≡ goal_id → k ≡ id))
    (exclusive : Exclusive d) (found : (c : SessionClaim) → prior ≡ some c → In (id, c) d)
    (named : id ≢ "") (goal_tidy : text goal_id ≡ some goal_id)
    (now_tidy : text now ≡ some now) where
  since_tidy :
      (o : Option SessionClaim)
      → prior ≡ o
      → text (claimed_since o goal_id now) ≡ some (claimed_since o goal_id now)
  since_tidy none h = now_tidy
  since_tidy (some c) h = elim (Bool-cases (c.goal_id == goal_id)) [
    | inl e ↦ rw e ((old id c (found c h)).0.2)
    | inr e ↦ rw e now_tidy
  ]

  assigned_tidy : AllTidy (assign id (new_claim prior goal_id now) d)
  assigned_tidy k c i = elim (In-assign_entry id (new_claim prior goal_id now) d i) [
    | inl (same, e) ↦ rw (same, e) (named, goal_tidy, since_tidy prior refl, now_tidy)
    | inr at ↦ (old k c at).0
  ]

  assigned-Exclusive : Exclusive (assign id (new_claim prior goal_id now) d)
  assigned-Exclusive j k b c i i' q = elim (In-assign_entry id (new_claim prior goal_id now) d i) [
    | inl (e, eb) ↦ elim (In-assign_entry id (new_claim prior goal_id now) d i') [
      | inl (f, fc) ↦ rw (e, f) refl
      | inr at ↦ rw (e, (old k c at).1 (rw (← q, eb) refl)) refl
    ]
    | inr at ↦ elim (In-assign_entry id (new_claim prior goal_id now) d i') [
      | inl (f, fc) ↦ rw (f, (old j b at).1 (rw (q, fc) refl)) refl
      | inr at' ↦ exclusive j k b c at at' q
    ]
  ]

module _ (host : Host) (s : State) (session_id goal_id now : String) (now_ms : ℕ)
    (kept : Kept s) where
  -- `claimSession` puts the claim in the place of what it has left.
  abbrev after : State
  after = record s {
    session_claims =
        let claims =
          without_holder (trim session_id) (first_claim s.session_claims goal_id)
            s.session_claims in
        assign (trim session_id) (new_claim (lookup (trim session_id) claims) goal_id now) claims;
  }

  claims_made :
      (trim session_id == "") ≡ false
      → text goal_id ≡ some goal_id
      → text now ≡ some now
      → Kept after × Holds after (trim session_id) goal_id now
  claims_made named gt nt =
      let left =
        left_lem s.session_claims goal_id (trim session_id) kept.0 kept.1
          (first_claim s.session_claims goal_id) refl in
      let claims =
        without_holder (trim session_id) (first_claim s.session_claims goal_id) s.session_claims in
      let old : (k : String) (c : SessionClaim)
          → In (k, c) claims
          → Tidy k c × (c.goal_id ≡ goal_id → k ≡ trim session_id) =
        λ k c i. (kept.0 k c (left k c i).0, (left k c i).1) in
      let one : Exclusive claims =
        λ j k b c i i' q. kept.1 j k b c (left j b i).0 (left k c i').0 q in
      let found : (c : SessionClaim)
          → lookup (trim session_id) claims ≡ some c
          → In (trim session_id, c) claims =
        λ c q. lookup-entry (trim session_id) c claims q in
      let present : trim session_id ≢ "" = λ e. ground (arith, eq_iff (trim session_id) "") in
      (
        (
          assigned_tidy claims goal_id (trim session_id) now (lookup (trim session_id) claims) old
              one found present gt nt,
          assigned-Exclusive claims goal_id (trim session_id) now (lookup (trim session_id) claims)
              old one found present gt nt,
        ),
        (
          new_claim (lookup (trim session_id) claims) goal_id now,
          assign_entry (trim session_id) _ claims,
          refl,
          refl,
        ),
      )

  -- If `claimSession` returns a state, for a goal identifier and a time that are not empty and have no
  -- space around them, and the claims read back as they are stored and no two sessions held the same
  -- goal, then so it is in the new state, where the session holds the goal and was last seen at that time.
  pub claim_session_exclusive :
      (s' : State)
      → text goal_id ≡ some goal_id
      → text now ≡ some now
      → claim_session host s session_id goal_id now now_ms ≡ returns s'
      → Kept s' × Holds s' (trim session_id) goal_id now
  unfolding claim_session
  claim_session_exclusive s' gt nt h = (claimed gt nt).holds s' h
    where
      claimed :
          text goal_id ≡ some goal_id
          → text now ≡ some now
          → Ends
              (λ r. Kept r × Holds r (trim session_id) goal_id now)
              (claim_session host s session_id goal_id now now_ms)
      claimed gt nt = Ends-require _ (λ named. Ends-require _ (λ _. Ends-then (λ _. Ends-at (
          rw (find_lem s.session_claims goal_id (trim session_id) kept.0 kept.1)
            (claims_made (not-true _ named) gt nt)))))
