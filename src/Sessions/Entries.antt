-- ===== src/Sessions/Entries.antt =====
-- The claims of src/state/session-claims.ts as entries, and what its reads and writes do to them.
use ycm_harness.Common.{
  ◌≡◌, ◌≢◌, refl, sym, ap, subst, ◌⊎◌, inl, inr, String, false, none, some, arith, eq_iff, ◌==◌, [],
  ◌∷◌, Dict, lookup, assign, delete, In, here, there, In-cons, not-In-nil, Bool-cases,
}
use ycm_harness.Schema.Lean.{SessionClaim}
use ycm_harness.Sessions.{text, read_claim, claims_of, first_claim}

-- A claim that `claimsOf` reads as it is stored.
abbrev pub Tidy : String → SessionClaim → Type 0
Tidy k c =
    (k ≢ "")
    × (text c.goal_id ≡ some c.goal_id)
    × (text c.claimed_at ≡ some c.claimed_at)
    × (text c.last_seen_at ≡ some c.last_seen_at)

abbrev pub AllTidy : Dict SessionClaim → Type 0
AllTidy d = (k : String) (c : SessionClaim) → In (k, c) d → Tidy k c

-- No two sessions hold the same goal.
abbrev pub Exclusive : Dict SessionClaim → Type 0
Exclusive d =
    (j k : String) (b c : SessionClaim) → In (j, b) d → In (k, c) d → b.goal_id ≡ c.goal_id → j ≡ k

pub read-Tidy : (k : String) (c : SessionClaim) → Tidy k c → read_claim k c ≡ some c
unfolding read_claim
read-Tidy k c (n, g, a, l) = elim (Bool-cases (k == "")) [
  | inl e ↦ absurd (n ((eq_iff k "").0 e))
  | inr e ↦ rw (read_claim, e, g, a, l) refl
]

pub claims_of-Tidy : (d : Dict SessionClaim) → AllTidy d → claims_of d ≡ d
unfolding claims_of
claims_of-Tidy [] t = refl
claims_of-Tidy ((k, c) ∷ d) t =
    rw (claims_of, read-Tidy k c (t k c here), claims_of-Tidy d (λ j b i. t j b (there i))) refl

pub first_claim-some :
    (d : Dict SessionClaim) (g k : String) (c : SessionClaim)
    → first_claim d g ≡ some (k, c)
    → In (k, c) d × (c.goal_id ≡ g)
unfolding first_claim
first_claim-some [] g k c h = cc
first_claim-some ((j, b) ∷ d) g k c h = elim (Bool-cases (b.goal_id == g)) [
  | inl e ↦
      let same : (j, b) ≡ (k, c) = some_inj (rw e at h) in
      (rw same here, subst (λ p. (p.1).goal_id ≡ g) same ((eq_iff b.goal_id g).0 e))
  | inr e ↦ let (i, q) = first_claim-some d g k c (rw e at h) in (there i, q)
]
  where
    some_inj : {x y : String × SessionClaim} → some x ≡ some y → x ≡ y
    some_inj h = ground arith

pub first_claim-none :
    (d : Dict SessionClaim) (g k : String) (c : SessionClaim)
    → first_claim d g ≡ none
    → In (k, c) d
    → c.goal_id ≡ g
    → ⊥
unfolding first_claim
first_claim-none [] g k c h i q = not-In-nil i
first_claim-none ((j, b) ∷ d) g k c h i q = elim (Bool-cases (b.goal_id == g)) [
  | inl e ↦ no (rw e at h)
  | inr e ↦ elim (In-cons i) [
    | inl same ↦ differ (subst (λ p. (p.1).goal_id == g ≡ false) (sym same) e)
    | inr at ↦ first_claim-none d g k c (rw e at h) at q
  ]
]
  where
    no : {x : String × SessionClaim} → some x ≡ none → ⊥
    no q = cc

    differ : (c.goal_id == g) ≡ false → ⊥
    differ e = ground (arith, eq_iff c.goal_id g)

pub In-assign_entry :
    {j : String} {x : SessionClaim} (k : String) (v : SessionClaim) (d : Dict SessionClaim)
    → In (j, x) (assign k v d)
    → ((j ≡ k) × (x ≡ v)) ⊎ In (j, x) d
unfolding assign
In-assign_entry k v [] i = elim (In-cons i) [
  | inl e ↦ inl (ap (λ p. p.0) e, ap (λ p. p.1) e)
  | inr n ↦ absurd (not-In-nil n)
]
In-assign_entry k v ((h, w) ∷ d) i = elim (Bool-cases (h == k)) [
  | inl e ↦ elim (In-cons (rw e at i)) [
    | inl s ↦ inl (rw (← (eq_iff h k).0 e) (ap (λ p. p.0) s), ap (λ p. p.1) s)
    | inr t ↦ inr (there t)
  ]
  | inr e ↦ elim (In-cons (rw e at i)) [
    | inl s ↦ inr (rw s here)
    | inr t ↦ elim (In-assign_entry k v d t) [ inl s ↦ inl s | inr u ↦ inr (there u) ]
  ]
]

pub In-delete_entry :
    {j : String} {x : SessionClaim} (k : String) (d : Dict SessionClaim)
    → In (j, x) (delete k d)
    → (j ≢ k) × In (j, x) d
unfolding delete
In-delete_entry k [] i = absurd (not-In-nil i)
In-delete_entry {j} k ((h, w) ∷ d) i = elim (Bool-cases (h == k)) [
  | inl e ↦ let (n, at) = In-delete_entry k d (rw e at i) in (n, there at)
  | inr e ↦ elim (In-cons (rw e at i)) [
    | inl s ↦ (λ q. differ (ap (λ p. p.0) s) q e, rw s here)
    | inr t ↦ let (n, at) = In-delete_entry k d t in (n, there at)
  ]
]
  where
    differ : j ≡ h → j ≡ k → (h == k) ≡ false → ⊥
    differ s q e = ground (arith, eq_iff h k, s, q)

pub assign_entry :
    (k : String) (v : SessionClaim) (d : Dict SessionClaim) → In (k, v) (assign k v d)
unfolding assign
assign_entry k v [] = here
assign_entry k v ((h, w) ∷ d) = elim (Bool-cases (h == k)) [
  | inl e ↦ rw (e, (eq_iff h k).0 e) here
  | inr e ↦ rw e (there (assign_entry k v d))
]

pub lookup-entry :
    (k : String) (v : SessionClaim) (d : Dict SessionClaim) → lookup k d ≡ some v → In (k, v) d
unfolding lookup
lookup-entry k v [] h = cc
lookup-entry k v ((j, w) ∷ d) h = elim (Bool-cases (j == k)) [
  | inl e ↦ let same : w ≡ v = ground arith in rw ((eq_iff j k).0 e, same) here
  | inr e ↦ there (lookup-entry k v d (rw e at h))
]
