-- ===== src/Autonomy/Watchdog/Tick/Sightings.antt =====
-- src/autonomy/missed-slot-watchdog.ts: the state, what is found of the due slots, and the live issue.
use ycm_harness.Common.{
  String, Bool, true, false, not, ◌&&◌, Option, none, some, List, [], ◌∷◌, ◌==◌, find, sort,
  code_le, map, Dict, Outcome, returns, ◌>>=◌, ◌>>◌, require, if◌then◌else◌,
}
use ycm_harness.Continuation.Labels.{append_text}
use ycm_harness.Autonomy.Watchdog.{
  ExpectedSlot, at_0900, at_1700, at_2300, FailureClass, app_runtime_lifecycle, agent_output,
  SlotReceipt, MissedSlot, GapIssue, RuntimeSnapshot, WatchdogState, DueSlot, Platform, same_slot,
  is_ok, is_agent_output, classify_miss,
}
use ycm_harness.Autonomy.Watchdog.Files.{
  WatchdogFault, watchdog_state_invalid, watchdog_gap_conflict, optional, is_open, list_gaps,
  find_live, list_for_date, read_receipt,
}

pub data TickOutcome : Type 0 where
  all_ok gap_open gap_updated gap_resolved disabled : TickOutcome

-- `WatchdogTickResult`, without the fields that are constants.
pub record TickResult : Type 0 where
  pub outcome : TickOutcome
  pub due : List DueSlot
  pub missed : List MissedSlot
  pub gap_issue_id : Option String

-- The files of the watchdog: its state, the gap issues, the receipts and the log of ticks.
pub record WatchdogFiles : Type 0 where
  pub saved : Option WatchdogState
  pub gaps : Dict GapIssue
  pub receipts : Dict SlotReceipt
  pub ticks : List (String × TickResult)

abbrev pub default_state : String → WatchdogState
default_state at = record {
  enabled = true;
  live_gap_issue_id = none;
  last_tick_at = none;
  updated_at = at;
}

unfoldable pub is_watchdog_state : Platform → WatchdogState → Bool
is_watchdog_state z s =
    optional z.is_id s.live_gap_issue_id
    && (optional z.is_time s.last_tick_at && z.is_time s.updated_at)

-- `readState(root, at)`
unfoldable pub read_state :
    Platform → Option WatchdogState → String → Outcome WatchdogFault WatchdogState
unfolding ◌>>◌ require
read_state z none at = returns (default_state at)
read_state z (some s) at = require (is_watchdog_state z s) watchdog_state_invalid >> returns s

abbrev pub enabled_as : Bool → String → WatchdogState → WatchdogState
enabled_as on at s = record {
  enabled = on;
  live_gap_issue_id = s.live_gap_issue_id;
  last_tick_at = s.last_tick_at;
  updated_at = at;
}

-- `enableWatchdog(root, now)` and `disableWatchdog(root, now)`
unfoldable pub set_enabled :
    Platform → Bool → String → WatchdogFiles → Outcome WatchdogFault WatchdogFiles
unfolding read_state ◌>>=◌
set_enabled z on at w = read_state z w.saved at >>= λ s. returns (record {
  saved = some (enabled_as on at s);
  gaps = w.gaps;
  receipts = w.receipts;
  ticks = w.ticks;
})

-- What one turn of the loop over the due slots finds.
pub data Sighting : Type 0 where
  unseen : Sighting
  missed_as : MissedSlot → Sighting
  recovered_as : String → Sighting

abbrev pub missed_at : DueSlot → FailureClass → MissedSlot
missed_at item c = record { local_date = item.local_date; slot = item.slot; failure_class = c }

-- The identifier of the receipt, when it is read back as it was listed.
abbrev pub confirmed : SlotReceipt → Option SlotReceipt → Option String
confirmed r none = none
confirmed r (some b) =
    if is_ok b.status && b.receipt_id == r.receipt_id then some b.receipt_id else none

abbrev pub read_back : DueSlot → SlotReceipt → Option String → Sighting
read_back item r (some id) = recovered_as id
read_back item r none = missed_as (
    missed_at item
      (if is_agent_output r.failure_class then agent_output else app_runtime_lifecycle))

abbrev pub satisfied :
    Platform → Dict SlotReceipt → DueSlot → Option SlotReceipt → Outcome WatchdogFault Sighting
satisfied z d item none = returns unseen
satisfied z d item (some r) =
    read_receipt z d r.receipt_id >>= λ back. returns (read_back item r (confirmed r back))

abbrev pub sighted :
    Platform
    → Dict SlotReceipt
    → DueSlot
    → Option SlotReceipt
    → Option FailureClass
    → Outcome WatchdogFault Sighting
sighted z d item listed (some c) = returns (missed_as (missed_at item c))
sighted z d item listed none = satisfied z d item listed

unfoldable pub sight :
    Platform → Dict SlotReceipt → RuntimeSnapshot → DueSlot → Outcome WatchdogFault Sighting
unfolding list_for_date read_receipt classify_miss ◌>>=◌
sight z d runtime item = list_for_date z d item.local_date >>= λ day.
    let listed = find (λ r. same_slot r.slot item.slot) day in
    sighted z d item listed (classify_miss listed runtime)

unfoldable pub sightings :
    Platform
    → Dict SlotReceipt
    → RuntimeSnapshot
    → List DueSlot
    → Outcome WatchdogFault (List Sighting)
unfolding sight ◌>>=◌
sightings z d runtime [] = returns []
sightings z d runtime (item ∷ due) =
    let rest = sightings z d runtime due in
    sight z d runtime item >>= λ s. rest >>= λ later. returns (s ∷ later)

abbrev pub as_missed : Sighting → Option MissedSlot
as_missed unseen = none
as_missed (missed_as m) = some m
as_missed (recovered_as id) = none

abbrev pub as_recovered : Sighting → Option String
as_recovered unseen = none
as_recovered (missed_as m) = none
as_recovered (recovered_as id) = some id

abbrev conflicts : Option String → Option GapIssue → Bool
conflicts none live = false
conflicts (some id) none = false
conflicts (some id) (some g) = not (id == "") && not (g.issue_id == id)

abbrev pub reopened : Option GapIssue → Option GapIssue
reopened none = none
reopened (some g) = if is_open g then some g else none

-- The open issue of the saved identifier, when no issue was found live.
abbrev adopted :
    Platform
    → Dict GapIssue
    → Option String
    → Option GapIssue
    → Outcome WatchdogFault (Option GapIssue)
adopted z d saved (some live) = returns (some live)
adopted z d none none = returns none
adopted z d (some id) none =
    if id == ""
    then returns none
    else (list_gaps z d >>= λ l. returns (reopened (find (λ g. g.issue_id == id) l)))

unfoldable pub live_gap :
    Platform → Dict GapIssue → Option String → Outcome WatchdogFault (Option GapIssue)
unfolding find_live list_gaps ◌>>=◌ ◌>>◌ require
live_gap z d saved = find_live z d >>= λ live.
    require (not (conflicts saved live)) watchdog_gap_conflict >> adopted z d saved live

abbrev slot_text : ExpectedSlot → String
slot_text at_0900 = "09:00"
slot_text at_1700 = "17:00"
slot_text at_2300 = "23:00"

abbrev class_text : FailureClass → String
class_text app_runtime_lifecycle = "app_runtime_lifecycle"
class_text agent_output = "agent_output"

-- `missedKey(item)`
unfoldable pub missed_key : MissedSlot → String
missed_key m = append_text m.local_date (
    append_text ":" (append_text (slot_text m.slot) (append_text ":" (class_text m.failure_class))))

abbrev same_texts : List String → List String → Bool
same_texts [] [] = true
same_texts [] (t ∷ ts) = false
same_texts (s ∷ ss) [] = false
same_texts (s ∷ ss) (t ∷ ts) = s == t && same_texts ss ts

-- `sameMissed(left, right)`
unfoldable pub same_missed : List MissedSlot → List MissedSlot → Bool
unfolding missed_key
same_missed left right =
    same_texts (sort code_le (map missed_key left)) (sort code_le (map missed_key right))
