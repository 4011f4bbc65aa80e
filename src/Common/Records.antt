-- ===== src/Common/Records.antt =====
-- A `Record<string, V>` as its entries in order of insertion. (Keys that read as array indices,
-- which the engine would list first, are not told apart.)
use Prim.Native.String.{String}
use mathlib.Core.Path.{◌≡◌, refl, ap, sym, subst, ◌∙◌}
use mathlib.Core.Logic.{◌⊎◌, inl, inr}
use mathlib.Core.Option.{Option, none, some}
use mathlib.Core.List.{List, [], ◌∷◌}
use native.Mathlib.Omega.{arith}
use text.Mathlib.Text.{◌==◌}
use text.Mathlib.TextEquality.{eq_iff}
use text.Mathlib.TextPositions.{eq_refl}
use ycm_harness.Common.Tests.{if◌then◌else◌, Bool-cases}
use ycm_harness.Common.Lists.{In, here, there, In-cons, not-In-nil}

abbrev pub Dict {ℓ} : Type ℓ → Type ℓ
Dict V = List (String × V)

module _ {ℓ} {V : Type ℓ} where
  -- `d[k]`, in a state with no key of `Object.prototype`.
  unfoldable pub lookup : String → Dict V → Option V
  lookup k [] = none
  lookup k ((j, v) ∷ d) = if j == k then some v else lookup k d

  -- `d[k] = v`: an old key keeps its place.
  unfoldable pub assign : String → V → Dict V → Dict V
  assign k v [] = (k, v) ∷ []
  assign k v ((j, w) ∷ d) = if j == k then (j, v) ∷ d else (j, w) ∷ assign k v d

  -- `delete d[k]`.
  unfoldable pub delete : String → Dict V → Dict V
  delete k [] = []
  delete k ((j, w) ∷ d) = if j == k then delete k d else (j, w) ∷ delete k d

  -- `Object.values(d)`.
  abbrev pub values : Dict V → List V
  values [] = []
  values ((k, v) ∷ d) = v ∷ values d

  pub lookup-assign :
      (k j : String) (v : V) (d : Dict V)
      → lookup j (assign k v d) ≡ (if k == j then some v else lookup j d)
  unfolding lookup assign
  lookup-assign k j v [] = refl
  lookup-assign k j v ((i, w) ∷ d) =
      ground (arith, eq_iff k j, eq_iff i k, eq_iff i j, lookup-assign k j v d)

  pub lookup-assign_self : (k : String) (v : V) (d : Dict V) → lookup k (assign k v d) ≡ some v
  lookup-assign_self k v d = simp (lookup-assign, eq_refl)

  pub lookup-delete :
      (k j : String) (d : Dict V) → lookup j (delete k d) ≡ (if k == j then none else lookup j d)
  unfolding lookup delete
  lookup-delete k j [] = ground arith
  lookup-delete k j ((i, w) ∷ d) =
      ground (arith, eq_iff k j, eq_iff i k, eq_iff i j, lookup-delete k j d)

  -- A value that is looked up stands among the values.
  pub lookup-In : (k : String) (d : Dict V) (v : V) → lookup k d ≡ some v → In v (values d)
  unfolding lookup
  lookup-In k [] v h = cc
  lookup-In k ((j, w) ∷ d) v h = elim (Bool-cases (j == k)) [
    | inl e ↦ let same : w ≡ v = ground arith in rw (← same) here
    | inr e ↦ there (lookup-In k d v (ground arith))
  ]

  pub In-assign_self : (k : String) (v : V) (d : Dict V) → In v (values (assign k v d))
  In-assign_self k v d = lookup-In k (assign k v d) v (lookup-assign_self k v d)

  -- A write leaves the other values, and a value that was not there under another key is new.
  pub In-assign :
      {x : V} (k : String) (v : V) (d : Dict V)
      → In x (values (assign k v d))
      → (x ≡ v) ⊎ In x (values d)
  unfolding assign
  In-assign k v [] i = In-cons i
  In-assign k v ((j, w) ∷ d) i = elim (Bool-cases (j == k)) [
    | inl e ↦ elim (In-cons (rw e at i)) [ inl s ↦ inl s | inr t ↦ inr (there t) ]
    | inr e ↦ elim (In-cons (rw e at i)) [
      | inl s ↦ inr (rw s here)
      | inr t ↦ elim (In-assign k v d t) [ inl s ↦ inl s | inr u ↦ inr (there u) ]
    ]
  ]

  -- A write at a fresh key keeps every value.
  pub In-assign_fresh :
      {x : V} (k : String) (v : V) (d : Dict V)
      → lookup k d ≡ none
      → In x (values d)
      → In x (values (assign k v d))
  unfolding lookup assign
  In-assign_fresh k v [] h i = there i
  In-assign_fresh {x} k v ((j, w) ∷ d) h i = elim (Bool-cases (j == k)) [
    | inl e ↦ absurd (ne (rw e at h))
    | inr e ↦ rw e (elim (In-cons i) [
      | inl s ↦ rw s here
      | inr t ↦ there (In-assign_fresh k v d (rw e at h) t)
    ])
  ]
    where
      ne : some w ≡ none → ⊥
      ne q = cc

  -- The keys of a JavaScript object are different.
  abbrev pub Keyed : Dict V → Type ℓ
  Keyed [] = Unit
  Keyed ((k, v) ∷ d) = ((w : V) → In (k, w) d → ⊥) × Keyed d

  pub Keyed-same : (k : String) (v w : V) (d : Dict V) → Keyed d → In (k, v) d → In (k, w) d → v ≡ w
  Keyed-same k v w [] u i j = absurd (not-In-nil i)
  Keyed-same k v w ((h, x) ∷ d) u i j = elim (In-cons i) [
    | inl a ↦ elim (In-cons j) [
      | inl b ↦ ap (λ p. p.1) a ∙ sym (ap (λ p. p.1) b)
      | inr t ↦ absurd (u.0 w (subst (λ n. In (n, w) d) (ap (λ p. p.0) a) t))
    ]
    | inr s ↦ elim (In-cons j) [
      | inl b ↦ absurd (u.0 v (subst (λ n. In (n, v) d) (ap (λ p. p.0) b) s))
      | inr t ↦ Keyed-same k v w d u.1 s t
    ]
  ]
