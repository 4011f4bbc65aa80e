-- ===== src/Autonomy/Watchdog/Tick/Due.antt =====
-- Which slots `expectedDueSlots` of src/autonomy/missed-slot-watchdog.ts takes as due.
use ycm_harness.Common.{
  ◌≡◌, refl, ◌↔◌, ◌⊎◌, inl, inr, ℕ, ◌+◌, ◌*◌, ◌≤◌, leb, leb_iff, map, filter, ◌∷◌, here, there,
  In-cons, not-In-nil, In-filter, In-filter_of, In-append, In-append_left, In-append_right, String,
  Bool, true, List, [], arith, all, length, In,
}
use ycm_harness.Autonomy.Watchdog.{
  ExpectedSlot, at_0900, at_1700, at_2300, expected_slots, slot_minutes, on_date, LocalTime,
  DueSlot, Platform, expected_due_slots,
}

-- The minute of the day that a slot starts at.
abbrev pub start_of : ExpectedSlot → ℕ
start_of at_0900 = 540
start_of at_1700 = 1020
start_of at_2300 = 1380

-- A slot of the day before, or one of the day that has started.
abbrev pub Due : Platform → LocalTime → DueSlot → Type 0
Due z now item =
    (item.local_date ≡ z.day_before now.local_date)
    ⊎ ((item.local_date ≡ now.local_date) × (start_of item.slot ≤ now.hour * 60 + now.minute))

In-slots : (s : ExpectedSlot) → In s expected_slots
In-slots at_0900 = here
In-slots at_1700 = there here
In-slots at_2300 = there (there here)

In-on_date :
    (date : String) (l : List ExpectedSlot) (item : DueSlot)
    → In item (map (on_date date) l) ↔ ((item.local_date ≡ date) × In item.slot l)
In-on_date date [] item = (λ i. absurd (not-In-nil i), λ h. absurd (not-In-nil (h.1)))
In-on_date date (s ∷ l) item =
    let later = In-on_date date l item in
    (
      λ i. elim (In-cons i) [
        | inl same ↦ rw same (refl, here)
        | inr j ↦ let (e, k) = later.0 j in (e, there k)
      ],
      λ (e, i). elim (In-cons i) [
        | inl same ↦ rw (← e, ← same) here
        | inr j ↦ there (later.1 (e, j))
      ],
    )

started_iff :
    (s : ExpectedSlot) (minutes : ℕ)
    → (leb (slot_minutes s) minutes ≡ true) ↔ (start_of s ≤ minutes)
started_iff at_0900 minutes = leb_iff _ _
started_iff at_1700 minutes = leb_iff _ _
started_iff at_2300 minutes = leb_iff _ _

pub expected_due_slots_iff :
    (z : Platform) (now : LocalTime) (item : DueSlot)
    → In item (expected_due_slots z now) ↔ Due z now item
unfolding expected_due_slots
expected_due_slots_iff z now item =
    let before = In-on_date (z.day_before now.local_date) expected_slots item in
    let started : ExpectedSlot → Bool = λ s. leb (slot_minutes s) (now.hour * 60 + now.minute) in
    let today = In-on_date now.local_date (filter started expected_slots) item in
    (
      λ i. elim (In-append (map (on_date (z.day_before now.local_date)) expected_slots) _ i) [
        | inl j ↦ inl ((before.0 j).0)
        | inr j ↦
            let (e, k) = today.0 j in
            inr (e, (started_iff item.slot _).0 ((In-filter started expected_slots k).1))
      ],
      λ h. elim h [
        | inl e ↦ In-append_left _ (before.1 (e, In-slots item.slot))
        | inr (e, s) ↦
            In-append_right (map (on_date (z.day_before now.local_date)) expected_slots) (
              today.1
                (e, In-filter_of started (In-slots item.slot) ((started_iff item.slot _).1 s)))
      ],
    )

pub due_few : (z : Platform) (now : LocalTime) → length (expected_due_slots z now) ≤ 6
unfolding expected_due_slots
due_few z now = ground arith

pub due_dated :
    (z : Platform) (now : LocalTime)
    → z.is_date now.local_date ≡ true
    → z.is_date (z.day_before now.local_date) ≡ true
    → all (λ i. z.is_date i.local_date) (expected_due_slots z now) ≡ true
unfolding expected_due_slots
due_dated z now t y = ground arith
