-- ===== src/Autonomy/Watchdog.antt =====
-- src/autonomy/missed-slot-watchdog.ts: the records, the slots that are due and what a receipt says
-- of a slot.
pub mod Files
pub mod Tick
pub mod Reachable
mod Tests
use ycm_harness.Common.{
  ◌≡◌, refl, ℕ, ◌+◌, ◌*◌, String, Bool, true, false, not, ◌&&◌, ◌||◌, Option, none, some, List, [],
  ◌∷◌, ◌++◌, map, filter, all, length, leb, if◌then◌else◌,
}

-- `EXPECTED_SLOTS`
pub data ExpectedSlot : Type 0 where
  at_0900 at_1700 at_2300 : ExpectedSlot

abbrev pub expected_slots : List ExpectedSlot
expected_slots = at_0900 ∷ at_1700 ∷ at_2300 ∷ []

pub data FailureClass : Type 0 where
  app_runtime_lifecycle agent_output : FailureClass

pub data ReceiptStatus : Type 0 where
  ok failed : ReceiptStatus

pub data EvidenceClass : Type 0 where
  natural_scheduler manual synthetic : EvidenceClass

pub record SlotReceipt : Type 0 where
  pub slot : ExpectedSlot
  pub local_date : String
  pub receipt_id : String
  pub observed_at : String
  pub status : ReceiptStatus
  pub failure_class : Option FailureClass
  pub evidence_class : Option EvidenceClass
  pub natural : Option Bool

pub record MissedSlot : Type 0 where
  pub local_date : String
  pub slot : ExpectedSlot
  pub failure_class : FailureClass

pub data GapStatus : Type 0 where
  opened resolved : GapStatus

pub record GapIssue : Type 0 where
  pub issue_id : String
  pub status : GapStatus
  pub missed_slots : List MissedSlot
  pub updated_at : String
  pub resolved_at : Option String
  pub resolve_receipt_ids : Option (List String)

pub record RuntimeSnapshot : Type 0 where
  pub app_available : Bool
  pub scheduler_reachable : Bool

-- `DurableWatchdogState`
pub record WatchdogState : Type 0 where
  pub enabled : Bool
  pub live_gap_issue_id : Option String
  pub last_tick_at : Option String
  pub updated_at : String

-- An item of `expectedDueSlots`.
pub record DueSlot : Type 0 where
  pub local_date : String
  pub slot : ExpectedSlot

-- What `hongKongParts` reads off the clock.
pub record LocalTime : Type 0 where
  pub local_date : String
  pub hour : ℕ
  pub minute : ℕ

-- What the runtime and the schema library supply: the local time of an instant (none when the
-- instant is no date), the day before a local date, the formats of texts, the digest that a new
-- issue is named by, and the files that identifiers of receipts name.
pub record Platform : Type 0 where
  pub local_time : String → Option LocalTime
  pub day_before : String → String
  pub is_id : String → Bool
  pub is_time : String → Bool
  pub is_date : String → Bool
  pub is_observed : String → Bool
  pub gap_id : String → List MissedSlot → String
  -- Where `path.join` puts `<id>.json`: the name, without the ending, of a file directly in the
  -- directory of receipts; none when that is elsewhere.
  pub receipt_file : String → Option String
  -- What is in the file elsewhere: none when there is no file, and a value that is no receipt as
  -- the inner none.
  pub outside : String → Option (Option SlotReceipt)

abbrev pub slot_minutes : ExpectedSlot → ℕ
slot_minutes at_0900 = 9 * 60 + 0
slot_minutes at_1700 = 17 * 60 + 0
slot_minutes at_2300 = 23 * 60 + 0

abbrev pub on_date : String → ExpectedSlot → DueSlot
on_date date slot = record { local_date = date; slot = slot }

-- `expectedDueSlots(now)`
unfoldable pub expected_due_slots : Platform → LocalTime → List DueSlot
expected_due_slots z now =
    map (on_date (z.day_before now.local_date)) expected_slots
    ++ map (on_date now.local_date)
        (filter (λ s. leb (slot_minutes s) (now.hour * 60 + now.minute)) expected_slots)

abbrev pub same_slot : ExpectedSlot → ExpectedSlot → Bool
same_slot at_0900 at_0900 = true
same_slot at_1700 at_1700 = true
same_slot at_2300 at_2300 = true
same_slot _ _ = false

abbrev pub is_ok : ReceiptStatus → Bool
is_ok ok = true
is_ok failed = false

abbrev pub is_agent_output : Option FailureClass → Bool
is_agent_output (some agent_output) = true
is_agent_output (some app_runtime_lifecycle) = false
is_agent_output none = false

abbrev without_output : RuntimeSnapshot → Option FailureClass
without_output runtime =
    if not runtime.app_available || not runtime.scheduler_reachable
    then some app_runtime_lifecycle
    else some app_runtime_lifecycle

-- `classifyMiss(receipt, runtime)`: none is "satisfied".
unfoldable pub classify_miss : Option SlotReceipt → RuntimeSnapshot → Option FailureClass
classify_miss none runtime = without_output runtime
classify_miss (some r) runtime =
    if is_ok r.status
    then none
    else if not (is_ok r.status) || is_agent_output r.failure_class
    then some agent_output
    else without_output runtime
