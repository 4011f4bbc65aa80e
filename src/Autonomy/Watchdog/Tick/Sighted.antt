-- ===== src/Autonomy/Watchdog/Tick/Sighted.antt =====
-- What a tick of src/autonomy/missed-slot-watchdog.ts finds of the due slots.
use ycm_harness.Common.{
  In-filter, In-filter_of, ◌≡◌, refl, sym, ap, ◌∙◌, ◌⊎◌, inl, inr, ◌+◌, String, true, ◌&&◌, Option,
  none, some, List, [], ◌∷◌, ◌==◌, arith, eq_iff, all, find, find-some, find-none, differ, false,
  filter, filter_map, length, Dict, lookup, In, here, there, In-cons, not-In-nil, Bool-cases,
  Option-cases, and-eq-true_iff, returns, ◌>>=◌,
}
use ycm_harness.Autonomy.Watchdog.{
  SlotReceipt, FailureClass, ok, MissedSlot, RuntimeSnapshot, DueSlot, Platform, same_slot, is_ok,
  classify_miss,
}
use ycm_harness.Autonomy.Watchdog.Files.{
  watchdog_receipt_invalid, is_slot_receipt, list_for_date, read_receipt,
}
use ycm_harness.Autonomy.Watchdog.Files.Loaded.{AllValid, parsed-some, load_all-Loaded}
use ycm_harness.Autonomy.Watchdog.Tick.Sightings.{
  Sighting, unseen, missed_as, recovered_as, missed_at, confirmed, read_back, sighted, sight,
  sightings, as_missed, as_recovered,
}
use ycm_harness.Autonomy.Watchdog.Tick.Lapses.{
  Listed, ReadsBack, Confirmed, Misses, Seen, same_slot_refl, same_slot-eq, is_ok-ok, classify-ok,
  classify-failed, classify-absent, classify-none,
}

-- The receipts are in the files that their identifiers name.
abbrev pub AllPlaced : Platform → Dict SlotReceipt → Type 0
AllPlaced z d =
    (k : String) (r : SlotReceipt)
    → lookup k d ≡ some r
    → (name : String) × (z.receipt_file r.receipt_id ≡ some name)

module _ (z : Platform) (d : Dict SlotReceipt) (valid : AllValid (is_slot_receipt z) d)
    (placed : AllPlaced z d) (runtime : RuntimeSnapshot) where
  -- The receipts of a date are the stored ones.
  record Day (date : String) (l : List SlotReceipt) : Type 0 where
    pub stored :
        (r : SlotReceipt) → In r l → (n : String) × (lookup n d ≡ some r) × (r.local_date ≡ date)
    pub complete :
        (n : String) (r : SlotReceipt) → lookup n d ≡ some r → r.local_date ≡ date → In r l

  day_lem :
      (date : String) → (l : List SlotReceipt) × (list_for_date z d date ≡ returns l) × Day date l
  unfolding list_for_date ◌>>=◌
  day_lem date =
      let (l, e, stored, complete) =
        load_all-Loaded (is_slot_receipt z) watchdog_receipt_invalid d valid in
      (
        filter (λ r. r.local_date == date) l,
        rw e refl,
        record {
          stored = λ r i.
              let (j, q) = In-filter (λ r. r.local_date == date) l i in
              let (n, h) = stored r j in (n, h, (eq_iff r.local_date date).0 q);
          complete = λ n r h on.
              In-filter_of (λ r. r.local_date == date) (complete n r h) ((eq_iff _ _).1 on);
        },
      )

  -- A receipt whose file is in the directory is read from there.
  read_lem :
      (id name : String)
      → z.receipt_file id ≡ some name
      → read_receipt z d id ≡ returns (lookup name d)
  unfolding read_receipt ◌>>=◌
  read_lem id name at = elim (Option-cases (lookup name d)) [
    | inl e ↦ rw (read_receipt, at, e) refl
    | inr (r, e) ↦
        rw (read_receipt, at, e, parsed-some (is_slot_receipt z) _ r (valid name r e)) refl
  ]

  id-valid : (n : String) (r : SlotReceipt) → lookup n d ≡ some r → z.is_id r.receipt_id ≡ true
  unfolding is_slot_receipt
  id-valid n r h = let v = valid n r h in ground arith

  confirmed_iff :
      (r : SlotReceipt) (name : String)
      → z.receipt_file r.receipt_id ≡ some name
      → (o : Option SlotReceipt) → lookup name d ≡ o
      → ((ReadsBack z d r → ⊥) × (confirmed r o ≡ none))
        ⊎ (ReadsBack z d r × (confirmed r o ≡ some r.receipt_id))
  confirmed_iff r name at none e = inl (λ (m, b, at', e', fine, same). absurd (ground arith), refl)
  confirmed_iff r name at (some b) e =
      elim (Bool-cases (is_ok b.status && b.receipt_id == r.receipt_id)) [
        | inl good ↦
            let (back_ok, same) = (and-eq-true_iff _ _).0 good in
            let same' = (eq_iff b.receipt_id r.receipt_id).0 same in
            inr ((name, b, at, e, is_ok-ok b.status back_ok, same'), rw (good, same') refl)
        | inr bad ↦ inl (
          λ (m, b', at', e', fine, same).
              let names : name ≡ m = ground arith in
              let same_b : b ≡ b' = some_same (sym e ∙ ap (λ n. lookup n d) names ∙ e') in
              not_both b b' r.receipt_id same_b fine same bad,
          rw bad refl,
        )
      ]
    where
      some_same : {x y : SlotReceipt} → some x ≡ some y → x ≡ y
      some_same h = ground arith

      not_both :
          (b b' : SlotReceipt) (id : String)
          → b ≡ b'
          → b'.status ≡ ok
          → b'.receipt_id ≡ id
          → (is_ok b.status && b.receipt_id == id) ≡ false
          → ⊥
      not_both b b' id s fine same bad =
          let t = (eq_iff b'.receipt_id id).1 same in differ (sym (rw (s, fine, t) at bad))

  read_back-Seen :
      (item : DueSlot) (r : SlotReceipt)
      → Listed d item r
      → r.status ≡ ok
      → (name : String) → z.receipt_file r.receipt_id ≡ some name
      → Seen z d item (read_back item r (confirmed r (lookup name d)))
  read_back-Seen item r listed is name at = elim (confirmed_iff r name at (lookup name d) refl) [
    | inl (lost, e) ↦ rw e (refl, refl, inr (r, listed, inr (is, lost)))
    | inr (back, e) ↦ rw e (
      record { receipt = r; listed = listed; listed_ok = is; listed_as = refl; again = back },
      id-valid listed.name r listed.stored,
    )
  ]

  module _ (item : DueSlot) (l : List SlotReceipt) (day : Day item.local_date l) where
    found-Listed :
        (r : SlotReceipt) → find (λ r. same_slot r.slot item.slot) l ≡ some r → Listed d item r
    found-Listed r found =
        let (i, slotted) = find-some (λ r. same_slot r.slot item.slot) l r found in
        let (n, h, dated) = day.stored r i in
        record {
          name = n;
          stored = h;
          dated = dated;
          slotted = same_slot-eq r.slot item.slot slotted;
        }

    none-Listed :
        find (λ r. same_slot r.slot item.slot) l ≡ none → (r : SlotReceipt) → Listed d item r → ⊥
    none-Listed nothing r listed =
        let i = day.complete listed.name r listed.stored listed.dated in
        let wrong = find-none (λ r. same_slot r.slot item.slot) l nothing i in
        differ
          (sym wrong ∙ ap (λ s. same_slot s item.slot) listed.slotted ∙ same_slot_refl item.slot)

    sighted_lem :
        (o : Option SlotReceipt)
        → find (λ r. same_slot r.slot item.slot) l ≡ o
        → (c : Option FailureClass) → classify_miss o runtime ≡ c
        → (s : Sighting) × (sighted z d item o c ≡ returns s) × Seen z d item s
    unfolding ◌>>=◌
    sighted_lem none found (some c) e = (
      missed_as (missed_at item c),
      refl,
      (refl, refl, inl (none-Listed found, classify-absent runtime c e)),
    )
    sighted_lem (some r) found (some c) e = (
      missed_as (missed_at item c),
      refl,
      (refl, refl, inr (r, found-Listed r found, inl (classify-failed r runtime c e))),
    )
    sighted_lem none found none e = absurd (classify-none runtime e)
    sighted_lem (some r) found none e =
        let listed = found-Listed r found in
        let (name, at) = placed listed.name r listed.stored in
        (
          read_back item r (confirmed r (lookup name d)),
          rw (read_lem r.receipt_id name at) refl,
          read_back-Seen item r listed (classify-ok r runtime e) name at,
        )

  sight_lem :
      (item : DueSlot) → (s : Sighting) × (sight z d runtime item ≡ returns s) × Seen z d item s
  unfolding sight ◌>>=◌
  sight_lem item =
      let (l, e, day) = day_lem item.local_date in
      let (s, e', seen) = sighted_lem item l day _ refl _ refl in (s, rw e e', seen)

  -- The due slots, told apart.
  pub record Tally (due : List DueSlot) (l : List Sighting) : Type 0 where
    pub count : length due ≡ length (filter_map as_recovered l) + length (filter_map as_missed l)
    pub ids : all z.is_id (filter_map as_recovered l) ≡ true
    pub dates :
        all (λ i. z.is_date i.local_date) due ≡ true
        → all (λ m. z.is_date m.local_date) (filter_map as_missed l) ≡ true
    pub explained :
        (m : MissedSlot)
        → In m (filter_map as_missed l)
        → (item : DueSlot) × In item due × Misses z d item m
    pub covered :
        (item : DueSlot)
        → In item due
        → ((m : MissedSlot) × In m (filter_map as_missed l) × Misses z d item m)
          ⊎ ((id : String) × Confirmed z d item id)

  Tally-cons :
      (item : DueSlot) (due : List DueSlot) (s : Sighting) (l : List Sighting)
      → Seen z d item s
      → Tally due l
      → Tally (item ∷ due) (s ∷ l)
  Tally-cons item due unseen l seen t = absurd seen
  Tally-cons item due (missed_as m) l seen t = record {
    count = let c = t.count in ground arith;
    ids = t.ids;
    dates = λ h.
        let q = (and-eq-true_iff _ _).0 h in
        (and-eq-true_iff _ _).1 (rw (seen.0) (q.0), t.dates (q.1));
    explained = λ x i. elim (In-cons i) [
      | inl same ↦ (item, here, rw same seen)
      | inr j ↦ let (y, k, p) = t.explained x j in (y, there k, p)
    ];
    covered = λ x i. elim (In-cons i) [
      | inl same ↦ inl (m, here, rw same seen)
      | inr j ↦ elim (t.covered x j) [ inl (y, k, p) ↦ inl (y, there k, p) | inr c ↦ inr c ]
    ];
  }
  Tally-cons item due (recovered_as id) l seen t = record {
    count = let c = t.count in ground arith;
    ids = (and-eq-true_iff _ _).1 (seen.1, t.ids);
    dates = λ h. t.dates (((and-eq-true_iff _ _).0 h).1);
    explained = λ x i. let (y, k, p) = t.explained x i in (y, there k, p);
    covered =
        λ x i. elim (In-cons i) [ inl same ↦ inr (id, rw same (seen.0)) | inr j ↦ t.covered x j ];
  }

  -- Every due slot is sighted, as missed or as recovered.
  pub sightings_lem :
      (due : List DueSlot)
      → (l : List Sighting) × (sightings z d runtime due ≡ returns l) × Tally due l
  unfolding sightings ◌>>=◌
  sightings_lem [] = (
    [],
    refl,
    record {
      count = refl;
      ids = refl;
      dates = λ h. refl;
      explained = λ m i. absurd (not-In-nil i);
      covered = λ x i. absurd (not-In-nil i);
    },
  )
  sightings_lem (item ∷ due) =
      let (s, e, seen) = sight_lem item in
      let (l, e', t) = sightings_lem due in (s ∷ l, rw (e, e') refl, Tally-cons item due s l seen t)
