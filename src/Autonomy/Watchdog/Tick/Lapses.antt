-- ===== src/Autonomy/Watchdog/Tick/Lapses.antt =====
-- Why a tick of src/autonomy/missed-slot-watchdog.ts finds a due slot missed, or does not.
use ycm_harness.Common.{◌≡◌, refl, ◌⊎◌, String, true, none, some, arith, Dict, lookup}
use ycm_harness.Autonomy.Watchdog.{
  SlotReceipt, FailureClass, app_runtime_lifecycle, agent_output, ReceiptStatus, ok, failed,
  ExpectedSlot, at_0900, at_1700, at_2300, MissedSlot, RuntimeSnapshot, DueSlot, Platform,
  same_slot, is_ok, classify_miss,
}
use ycm_harness.Autonomy.Watchdog.Tick.Sightings.{Sighting, unseen, missed_as, recovered_as}

-- The receipt is stored, for the slot and the date of the item.
pub record Listed (d : Dict SlotReceipt) (item : DueSlot) (r : SlotReceipt) : Type 0 where
  pub name : String
  pub stored : lookup name d ≡ some r
  pub dated : r.local_date ≡ item.local_date
  pub slotted : r.slot ≡ item.slot

-- The file that the identifier of the receipt names holds an ok receipt of that identifier.
abbrev pub ReadsBack : Platform → Dict SlotReceipt → SlotReceipt → Type 0
ReadsBack z d r =
    (name : String) × (b : SlotReceipt) × (z.receipt_file r.receipt_id ≡ some name)
    × (lookup name d ≡ some b)
    × (b.status ≡ ok)
    × (b.receipt_id ≡ r.receipt_id)

-- A due slot has a receipt of its date that is ok, and that is ok when it is read back by its
-- identifier.
pub record Confirmed (z : Platform) (d : Dict SlotReceipt) (item : DueSlot) (id : String)
    : Type 0 where
  pub receipt : SlotReceipt
  pub listed : Listed d item receipt
  pub listed_ok : receipt.status ≡ ok
  pub listed_as : receipt.receipt_id ≡ id
  pub again : ReadsBack z d receipt

-- Why a due slot is missed: there is no receipt, a receipt says that it failed, or an ok receipt
-- does not read back.
abbrev pub Lapse : Platform → Dict SlotReceipt → DueSlot → FailureClass → Type 0
Lapse z d item c =
    (((r : SlotReceipt) → Listed d item r → ⊥) × (c ≡ app_runtime_lifecycle))
    ⊎ ((r : SlotReceipt) × Listed d item r
        × (((r.status ≡ failed) × (c ≡ agent_output)) ⊎ ((r.status ≡ ok) × (ReadsBack z d r → ⊥))))

-- The missed slot is the due one.
abbrev pub Misses : Platform → Dict SlotReceipt → DueSlot → MissedSlot → Type 0
Misses z d item m =
    (m.local_date ≡ item.local_date) × (m.slot ≡ item.slot) × Lapse z d item m.failure_class

-- What a sighting says of a due slot.
abbrev pub Seen : Platform → Dict SlotReceipt → DueSlot → Sighting → Type 0
Seen z d item unseen = ⊥
Seen z d item (missed_as m) = Misses z d item m
Seen z d item (recovered_as id) = Confirmed z d item id × (z.is_id id ≡ true)

pub same_slot_refl : (a : ExpectedSlot) → same_slot a a ≡ true
same_slot_refl at_0900 = refl
same_slot_refl at_1700 = refl
same_slot_refl at_2300 = refl

pub same_slot-eq : (a b : ExpectedSlot) → same_slot a b ≡ true → a ≡ b
same_slot-eq at_0900 at_0900 h = refl
same_slot-eq at_1700 at_1700 h = refl
same_slot-eq at_2300 at_2300 h = refl
same_slot-eq at_0900 at_1700 h = cc
same_slot-eq at_0900 at_2300 h = cc
same_slot-eq at_1700 at_0900 h = cc
same_slot-eq at_1700 at_2300 h = cc
same_slot-eq at_2300 at_0900 h = cc
same_slot-eq at_2300 at_1700 h = cc

pub is_ok-ok : (s : ReceiptStatus) → is_ok s ≡ true → s ≡ ok
is_ok-ok ok h = refl
is_ok-ok failed h = cc

pub classify-ok :
    (r : SlotReceipt) (runtime : RuntimeSnapshot)
    → classify_miss (some r) runtime ≡ none
    → r.status ≡ ok
unfolding classify_miss
classify-ok r runtime h = is_ok-ok r.status (ground arith)

pub classify-failed :
    (r : SlotReceipt) (runtime : RuntimeSnapshot) (c : FailureClass)
    → classify_miss (some r) runtime ≡ some c
    → (r.status ≡ failed) × (c ≡ agent_output)
unfolding classify_miss
classify-failed r runtime c h = by_status r.status refl
  where
    by_status : (s : ReceiptStatus) → r.status ≡ s → (r.status ≡ failed) × (c ≡ agent_output)
    by_status ok e = absurd (ground arith)
    by_status failed e = (e, ground arith)

pub classify-absent :
    (runtime : RuntimeSnapshot) (c : FailureClass)
    → classify_miss none runtime ≡ some c
    → c ≡ app_runtime_lifecycle
unfolding classify_miss
classify-absent runtime c h = ground arith

pub classify-none : (runtime : RuntimeSnapshot) → classify_miss none runtime ≡ none → ⊥
unfolding classify_miss
classify-none runtime h = ground arith
