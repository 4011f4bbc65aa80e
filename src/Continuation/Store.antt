-- ===== src/Continuation/Store.antt =====
-- The stores of src/continuation/audit.ts and src/continuation/shadow.ts, which are read and
-- written alike: a directory of files in the order of their names, each with one record.
use ycm_harness.Common.{
  ◌≡◌, refl, inl, inr, String, Bool, true, false, not, ◌&&◌, and-eq-true_iff, some, List, [], ◌∷◌,
  arith, ◌==◌, eq_iff, eq_refl, any, find, In, here, there, In-cons, Bool-cases, not-true,
  if◌then◌else◌, code_le, Outcome, returns, throws, ◌>>=◌,
}

abbrev pub Files : Type 0 → Type 0
Files A = List (String × A)

-- `ids.has(id)`
abbrev pub has : String → List String → Bool
has id ids = any (λ x. x == id) ids

module _ {A : Type 0} where
  -- `writeJsonAtomic(path.join(directory, name), record)`
  unfoldable pub write : String → A → Files A → Files A
  write name a [] = (name, a) ∷ []
  write name a ((n, b) ∷ files) =
      if n == name
      then (name, a) ∷ files
      else if code_le name n
      then (name, a) ∷ (n, b) ∷ files
      else (n, b) ∷ write name a files

-- A store by the id of a record, and by what `storedRecord` checks of a file.
module _ {A E : Type 0} (id_of : A → String) (sound : String → A → Bool) (bad : E) where
  -- `storedRecord(raw, filenameId)`
  unfoldable pub stored_record : String → A → Outcome E A
  stored_record name a = if sound name a then returns a else throws bad

  -- `readRecordsUnlocked(root)`, past the ids that were read.
  unfoldable pub read_after : List String → Files A → Outcome E (List A)
  read_after seen [] = returns []
  read_after seen ((name, a) ∷ files) =
      let rest = read_after (id_of a ∷ seen) files in
      if sound name a && not (has (id_of a) seen)
      then (rest >>= λ later. returns (a ∷ later))
      else throws bad

  -- A file that was read, and the files behind it.
  record ReadCons (seen : List String) (name : String) (a : A) (files : Files A) (l : List A)
      : Type 0 where
    pub later : List A
    pub split : l ≡ a ∷ later
    pub checked : sound name a ≡ true
    pub unseen : has (id_of a) seen ≡ false
    pub rest : read_after (id_of a ∷ seen) files ≡ returns later

  bind_returns :
      (o : Outcome E (List A)) (a : A) (l : List A)
      → (o >>= λ later. returns (a ∷ later)) ≡ returns l
      → (later : List A) × (l ≡ a ∷ later) × (o ≡ returns later)
  unfolding ◌>>=◌
  bind_returns (returns later) a l h = (later, ground arith, refl)
  bind_returns (throws e) a l h = cc

  read_cons :
      (seen : List String) (name : String) (a : A) (files : Files A) (l : List A)
      → read_after seen ((name, a) ∷ files) ≡ returns l
      → ReadCons seen name a files l
  unfolding read_after
  read_cons seen name a files l h = elim (Bool-cases (sound name a && not (has (id_of a) seen))) [
    | inr bad_file ↦ absurd (threw (rw bad_file at h))
    | inl good ↦
        let (later, split, rest) =
          bind_returns (read_after (id_of a ∷ seen) files) a l (rw good at h) in
        let (checked, new) = (and-eq-true_iff _ _).0 good in
        record {
          later = later;
          split = split;
          checked = checked;
          unseen = not-true _ new;
          rest = rest;
        }
  ]
    where
      threw : throws bad ≡ returns l → ⊥
      threw e = cc

  read_cons_of :
      (seen : List String) (name : String) (a : A) (files : Files A) (later : List A)
      → sound name a ≡ true
      → has (id_of a) seen ≡ false
      → read_after (id_of a ∷ seen) files ≡ returns later
      → read_after seen ((name, a) ∷ files) ≡ returns (a ∷ later)
  unfolding read_after ◌>>=◌
  read_cons_of seen name a files later c n e = rw (c, n, e) refl

  none_read :
      {x : A} (l : List A) → ◌≡◌ {A = Outcome E (List A)} (returns []) (returns l) → In x l → ⊥
  none_read [] e j = elim j [ ]
  none_read (y ∷ ys) e j = cc

  -- No record has an id that was seen before.
  read-unseen :
      (seen : List String) (files : Files A) (l : List A)
      → read_after seen files ≡ returns l
      → (x : A) → In x l
      → has (id_of x) seen ≡ false
  unfolding read_after
  read-unseen seen [] l h x i = absurd (none_read l h i)
  read-unseen seen ((name, a) ∷ files) l h x i =
      let c = read_cons seen name a files l h in
      elim (In-cons (rw c.split at i)) [
        | inl same ↦ rw same c.unseen
        | inr j ↦ let both = read-unseen (id_of a ∷ seen) files c.later c.rest x j in ground arith
      ]

  -- What can be read can be read after any ids that its records do not have.
  read-elsewhere :
      (seen seen' : List String) (files : Files A) (l : List A)
      → read_after seen files ≡ returns l
      → ((x : A) → In x l → has (id_of x) seen' ≡ false)
      → read_after seen' files ≡ returns l
  unfolding read_after
  read-elsewhere seen seen' [] l h new = h
  read-elsewhere seen seen' ((name, a) ∷ files) l h new =
      let c = read_cons seen name a files l h in
      let apart = read-unseen (id_of a ∷ seen) files c.later c.rest in
      let moved =
        read-elsewhere (id_of a ∷ seen) (id_of a ∷ seen') files c.later c.rest (λ x i.
          let here' = apart x i in let free = new x (rw c.split (there i)) in ground arith) in
      rw c.split (read_cons_of seen' name a files c.later c.checked (new a (rw c.split here)) moved)

  -- A record is found in the store under its own id.
  pub read-find :
      (seen : List String) (files : Files A) (l : List A)
      → read_after seen files ≡ returns l
      → (x : A) → In x l
      → find (λ y. id_of y == id_of x) l ≡ some x
  unfolding read_after
  read-find seen [] l h x i = absurd (none_read l h i)
  read-find seen ((name, a) ∷ files) l h x i =
      let c = read_cons seen name a files l h in
      let later = λ (j : In x c.later). read-find (id_of a ∷ seen) files c.later c.rest x j in
      rw c.split (elim (In-cons (rw c.split at i)) [
        | inl same ↦ rw (same, eq_refl (id_of a)) refl
        | inr j ↦
            let apart = read-unseen (id_of a ∷ seen) files c.later c.rest x j in
            let other : (id_of a == id_of x) ≡ false = ground arith in rw other (later j)
      ])

  -- A written record of a new id can be read, and is found under its id.
  pub read-write :
      (seen : List String) (name : String) (a : A) (files : Files A) (l : List A)
      → read_after seen files ≡ returns l
      → sound name a ≡ true
      → has (id_of a) seen ≡ false
      → ((x : A) → In x l → (id_of x == id_of a) ≡ false)
      → (l' : List A) × (read_after seen (write name a files) ≡ returns l') × In a l'
  unfolding write read_after
  read-write seen name a [] l h ok new fresh =
      (a ∷ [], read_cons_of seen name a [] [] ok new refl, here)
  read-write seen name a ((n, b) ∷ files) l h ok new fresh =
      let c = read_cons seen n b files l h in
      let b_fresh = fresh b (rw c.split here) in
      elim (Bool-cases (n == name)) [
        | inl over ↦ rw over (
          a ∷ c.later,
          read_cons_of seen name a files c.later ok new (
              read-elsewhere (id_of b ∷ seen) (id_of a ∷ seen) files c.later c.rest (λ x i.
                let apart = read-unseen (id_of b ∷ seen) files c.later c.rest x i in
                let differ = fresh x (rw c.split (there i)) in
                ground (arith, eq_iff (id_of a) (id_of x), eq_iff (id_of x) (id_of a)))),
          here,
        )
        | inr apart ↦ rw apart (elim (Bool-cases (code_le name n)) [
          | inl before ↦ rw before (
            a ∷ l,
            read_cons_of seen name a ((n, b) ∷ files) l ok new (
                read-elsewhere seen (id_of a ∷ seen) ((n, b) ∷ files) l h (λ x i.
                  let unseen = read-unseen seen ((n, b) ∷ files) l h x i in
                  let differ = fresh x i in
                  ground (arith, eq_iff (id_of a) (id_of x), eq_iff (id_of x) (id_of a)))),
            here,
          )
          | inr behind ↦
              let (l', e, i) =
                read-write (id_of b ∷ seen) name a files c.later c.rest ok (ground arith)
                  (λ x j. fresh x (rw c.split (there j))) in
              rw behind (
                b ∷ l',
                read_cons_of seen n b (write name a files) l' c.checked c.unseen e,
                there i,
              )
        ])
      ]
