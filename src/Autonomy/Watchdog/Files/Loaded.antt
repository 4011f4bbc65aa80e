-- ===== src/Autonomy/Watchdog/Files/Loaded.antt =====
-- What `loadAll` of src/autonomy/missed-slot-watchdog.ts reads from a directory of valid files.
use ycm_harness.Common.{
  differ, sym, ◌≡◌, refl, ◌⊎◌, inl, inr, String, Bool, true, some, List, [], ◌∷◌, ◌==◌, arith,
  eq_iff, eq_refl, Dict, lookup, assign, lookup-assign, In, here, there, In-cons, not-In-nil,
  In-sort, In-sort_of, sort, Bool-cases, returns, ◌>>=◌, ◌>>◌, require, some_or,
}
use ycm_harness.Autonomy.Watchdog.Files.{WatchdogFault, keys, parsed, load, load_all}

module _ {A : Type 0} where
  keys-lookup : (n : String) (d : Dict A) → In n (keys d) → (a : A) × (lookup n d ≡ some a)
  unfolding lookup
  keys-lookup n [] i = absurd (not-In-nil i)
  keys-lookup n ((k, a) ∷ d) i = elim (Bool-cases (k == n)) [
    | inl e ↦ (a, rw e refl)
    | inr e ↦ elim (In-cons i) [
      | inl same ↦ absurd (differ (sym (rw (← same, eq_refl) at e)))
      | inr j ↦ let (b, h) = keys-lookup n d j in (b, rw e h)
    ]
  ]

  lookup-keys : (n : String) (d : Dict A) (a : A) → lookup n d ≡ some a → In n (keys d)
  unfolding lookup
  lookup-keys n [] a h = cc
  lookup-keys n ((k, b) ∷ d) a h = elim (Bool-cases (k == n)) [
    | inl e ↦ rw ((eq_iff k n).0 e) here
    | inr e ↦ there (lookup-keys n d a (rw e at h))
  ]

-- Every file is one that the schema takes.
abbrev pub AllValid : {A : Type 0} → (A → Bool) → Dict A → Type 0
AllValid {A} valid d = (k : String) (a : A) → lookup k d ≡ some a → valid a ≡ true

module _ {A : Type 0} (valid : A → Bool) (bad : WatchdogFault) where
  pub parsed-some : (a : A) → valid a ≡ true → parsed valid bad (some a) ≡ returns a
  unfolding parsed some_or require ◌>>=◌ ◌>>◌
  parsed-some a h = rw h refl

  -- The records that were read of the files with these names.
  record Loaded (d : Dict A) (names : List String) (l : List A) : Type 0 where
    pub stored : (a : A) → In a l → (n : String) × (lookup n d ≡ some a)
    pub complete : (n : String) → In n names → (a : A) → lookup n d ≡ some a → In a l

  load-Loaded :
      (d : Dict A)
      → AllValid valid d
      → (names : List String) → ((n : String) → In n names → In n (keys d))
      → (l : List A) × (load valid bad d names ≡ returns l) × Loaded d names l
  unfolding load ◌>>=◌
  load-Loaded d ok [] sub = (
    [],
    refl,
    record { stored = λ a i. absurd (not-In-nil i); complete = λ n i. absurd (not-In-nil i) },
  )
  load-Loaded d ok (n ∷ names) sub =
      let (a, at) = keys-lookup n d (sub n here) in
      let (l, e, f) = load-Loaded d ok names (λ m i. sub m (there i)) in
      (
        a ∷ l,
        rw (at, parsed-some a (ok n a at), e) refl,
        record {
          stored = λ b i. elim (In-cons i) [ inl same ↦ (n, rw same at) | inr j ↦ f.stored b j ];
          complete = λ m i b h. elim (In-cons i) [
            | inl same ↦
                let eq : some a ≡ some b = rw (← at, ← same) h in
                let eq' : a ≡ b = ground arith in rw eq' here
            | inr j ↦ there (f.complete m j b h)
          ];
        },
      )

  -- All files are read, and nothing else.
  pub load_all-Loaded :
      (d : Dict A)
      → AllValid valid d
      → (l : List A) × (load_all valid bad d ≡ returns l)
        × ((a : A) → In a l → (n : String) × (lookup n d ≡ some a))
        × ((n : String) (a : A) → lookup n d ≡ some a → In a l)
  unfolding load_all
  load_all-Loaded d ok =
      let (l, e, f) = load-Loaded d ok (sort _ (keys d)) (λ n i. In-sort _ (keys d) i) in
      (l, e, f.stored, λ n a h. f.complete n (In-sort_of _ (keys d) (lookup-keys n d a h)) a h)

-- What is at a name after a write.
pub assigned :
    {A : Type 0} (k j : String) (v x : A) (d : Dict A)
    → lookup j (assign k v d) ≡ some x
    → ((k ≡ j) × (v ≡ x)) ⊎ (lookup j d ≡ some x)
assigned k j v x d h = elim (Bool-cases (k == j)) [
  | inl e ↦ inl ((eq_iff k j).0 e, ground (arith, rw (lookup-assign, e) at h))
  | inr e ↦ inr (rw (lookup-assign, e) at h)
]
