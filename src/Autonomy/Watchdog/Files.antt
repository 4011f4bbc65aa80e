-- ===== src/Autonomy/Watchdog/Files.antt =====
-- src/autonomy/missed-slot-watchdog.ts: the adapters over files. A directory is the entries of its
-- files by their names without `.json`.
pub mod Loaded
pub mod Single
use ycm_harness.Common.{
  ◌≡◌, refl, ℕ, String, Bool, true, false, not, ◌&&◌, ◌||◌, Option, none, some, List, [], ◌∷◌, ◌==◌,
  all, find, filter, length, leb, sort, code_le, Dict, lookup, assign, Outcome, returns, throws,
  ◌>>=◌, ◌>>◌, require, some_or, if◌then◌else◌, is_some,
}
use ycm_harness.Continuation.Labels.{append_text}
use ycm_harness.Autonomy.Watchdog.{
  SlotReceipt, MissedSlot, GapStatus, opened, resolved, GapIssue, Platform, is_ok,
}

-- The errors that the watchdog throws.
pub data WatchdogFault : Type 0 where
  watchdog_now_invalid watchdog_state_invalid watchdog_gap_conflict : WatchdogFault
  watchdog_gap_invalid watchdog_gap_missing watchdog_receipt_invalid zod_error : WatchdogFault

abbrev pub optional : (String → Bool) → Option String → Bool
optional p none = true
optional p (some s) = p s

-- `SlotReceiptSchema`
unfoldable pub is_slot_receipt : Platform → SlotReceipt → Bool
is_slot_receipt z r =
    z.is_date r.local_date && (z.is_id r.receipt_id && z.is_observed r.observed_at)

abbrev pub are_receipt_ids : Platform → Option (List String) → Bool
are_receipt_ids z none = true
are_receipt_ids z (some ids) = all z.is_id ids && leb (length ids) 32

-- `GapIssueSchema`
unfoldable pub is_gap_issue : Platform → GapIssue → Bool
is_gap_issue z g =
    z.is_id g.issue_id
    && (all (λ m. z.is_date m.local_date) g.missed_slots
        && (leb (length g.missed_slots) 32
            && (z.is_time g.updated_at
                && (optional z.is_time g.resolved_at && are_receipt_ids z g.resolve_receipt_ids))))

-- `names.filter(…).sort()`, of the names with their ending.
abbrev by_file : String → String → Bool
by_file j k = code_le (append_text j ".json") (append_text k ".json")

abbrev pub keys {ℓ} : {A : Type ℓ} → Dict A → List String
keys [] = []
keys ((k, a) ∷ d) = k ∷ keys d

module _ {A : Type 0} (valid : A → Bool) (bad : WatchdogFault) where
  -- What `safeParse`, or `parse`, takes of a file.
  unfoldable pub parsed : Option A → Outcome WatchdogFault A
  unfolding ◌>>=◌ ◌>>◌ require some_or
  parsed raw = some_or raw bad >>= λ a. require (valid a) bad >> returns a

  -- The loop of `loadAll` over the names.
  unfoldable pub load : Dict A → List String → Outcome WatchdogFault (List A)
  unfolding ◌>>=◌ parsed
  load d [] = returns []
  load d (n ∷ names) =
      let rest = load d names in parsed (lookup n d) >>= λ a. rest >>= λ later. returns (a ∷ later)

  -- `loadAll()`
  unfoldable pub load_all : Dict A → Outcome WatchdogFault (List A)
  unfolding load
  load_all d = load d (sort by_file (keys d))

abbrev pub is_open : GapIssue → Bool
is_open g = elim g.status [ opened ↦ true | resolved ↦ false ]

-- `list()` of the gap adapter.
unfoldable pub list_gaps : Platform → Dict GapIssue → Outcome WatchdogFault (List GapIssue)
unfolding load_all
list_gaps z d = load_all (is_gap_issue z) watchdog_gap_invalid d

-- `findLive()`
unfoldable pub find_live : Platform → Dict GapIssue → Outcome WatchdogFault (Option GapIssue)
unfolding list_gaps ◌>>=◌
find_live z d = list_gaps z d >>= λ issues. returns (find is_open issues)

-- `GapIssueSchema.parse` of a file, and the check that its issue is open.
unfoldable pub open_gap : Platform → String → Dict GapIssue → Outcome WatchdogFault GapIssue
unfolding parsed ◌>>=◌ ◌>>◌ require
open_gap z id d = parsed (is_gap_issue z) zod_error (lookup id d) >>= λ g.
    require (is_open g) watchdog_gap_missing >> returns g

abbrev pub with_missed : GapIssue → List MissedSlot → String → GapIssue
with_missed g missed at = record {
  issue_id = g.issue_id;
  status = g.status;
  missed_slots = missed;
  updated_at = at;
  resolved_at = g.resolved_at;
  resolve_receipt_ids = g.resolve_receipt_ids;
}

-- `update(issueId, { missed_slots, at })`
unfoldable pub update_gap :
    Platform
    → String
    → List MissedSlot
    → String
    → Dict GapIssue
    → Outcome WatchdogFault (GapIssue × Dict GapIssue)
unfolding open_gap ◌>>=◌ assign
update_gap z id missed at d = open_gap z id d >>= λ g.
    returns (with_missed g missed at, assign id (with_missed g missed at) d)

abbrev pub new_gap : Platform → List MissedSlot → String → GapIssue
new_gap z missed at = record {
  issue_id = z.gap_id at missed;
  status = opened;
  missed_slots = missed;
  updated_at = at;
  resolved_at = none;
  resolve_receipt_ids = none;
}

abbrev create_unless :
    Platform
    → List MissedSlot
    → String
    → Dict GapIssue
    → Option GapIssue
    → Outcome WatchdogFault (GapIssue × Dict GapIssue)
create_unless z missed at d (some live) = update_gap z live.issue_id missed at d
create_unless z missed at d none =
    returns (new_gap z missed at, assign (z.gap_id at missed) (new_gap z missed at) d)

-- `create({ missed_slots, at })`
unfoldable pub create_gap :
    Platform
    → List MissedSlot
    → String
    → Dict GapIssue
    → Outcome WatchdogFault (GapIssue × Dict GapIssue)
unfolding find_live ◌>>=◌ update_gap assign
create_gap z missed at d = find_live z d >>= create_unless z missed at d

abbrev pub as_resolved : GapIssue → String → List String → GapIssue
as_resolved g at ids = record {
  issue_id = g.issue_id;
  status = resolved;
  missed_slots = g.missed_slots;
  updated_at = at;
  resolved_at = some at;
  resolve_receipt_ids = some ids;
}

-- `resolve(issueId, { at, receipt_ids })`
unfoldable pub resolve_gap :
    Platform
    → String
    → String
    → List String
    → Dict GapIssue
    → Outcome WatchdogFault (GapIssue × Dict GapIssue)
unfolding open_gap ◌>>=◌ assign
resolve_gap z id at ids d =
    open_gap z id d >>= λ g. returns (as_resolved g at ids, assign id (as_resolved g at ids) d)

-- `listForDate(localDate)`
unfoldable pub list_for_date :
    Platform → Dict SlotReceipt → String → Outcome WatchdogFault (List SlotReceipt)
unfolding load_all ◌>>=◌
list_for_date z d date = load_all (is_slot_receipt z) watchdog_receipt_invalid d >>= λ receipts.
    returns (filter (λ r. r.local_date == date) receipts)

abbrev pub read_file :
    Platform → Option (Option SlotReceipt) → Outcome WatchdogFault (Option SlotReceipt)
read_file z none = returns none
read_file z (some raw) = parsed (is_slot_receipt z) zod_error raw >>= λ r. returns (some r)

abbrev pub in_directory : Option SlotReceipt → Option (Option SlotReceipt)
in_directory none = none
in_directory (some r) = some (some r)

-- `read(receiptId)`: the file is in the directory of receipts or elsewhere.
unfoldable pub read_receipt :
    Platform → Dict SlotReceipt → String → Outcome WatchdogFault (Option SlotReceipt)
unfolding parsed ◌>>=◌
read_receipt z d id = elim (z.receipt_file id) [
  | none ↦ read_file z (z.outside id)
  | some name ↦ read_file z (in_directory (lookup name d))
]

-- What `writeSlotReceipt` writes: a file in the directory of receipts, or one elsewhere.
pub data Written : Type 0 where
  in_receipts : Dict SlotReceipt → Written
  elsewhere : String → SlotReceipt → Written

abbrev pub written_at : Option String → SlotReceipt → Dict SlotReceipt → Written
written_at none r d = elsewhere r.receipt_id r
written_at (some name) r d = in_receipts (assign name r d)

-- `writeSlotReceipt(root, receipt)`
unfoldable pub write_slot_receipt :
    Platform → SlotReceipt → Dict SlotReceipt → Outcome WatchdogFault Written
unfolding parsed ◌>>=◌ assign
write_slot_receipt z r d = parsed (is_slot_receipt z) zod_error (some r) >>= λ r.
    returns (written_at (z.receipt_file r.receipt_id) r d)
