-- ===== src/Autonomy/Watchdog/Tick.antt =====
-- src/autonomy/missed-slot-watchdog.ts: the state of the watchdog and its tick.
pub mod Sightings
pub mod Due
pub mod Lapses
pub mod Sighted
pub mod GapsLeft
pub mod Watched
use ycm_harness.Common.{
  ◌≡◌, refl, ℕ, String, Bool, true, false, not, ◌&&◌, ◌||◌, Option, none, some, List, [], ◌∷◌, ◌++◌,
  ◌==◌, find, length, leb, sort, code_le, map, filter_map, Dict, Outcome, returns, throws, ◌>>=◌,
  ◌>>◌, require, some_or, if◌then◌else◌,
}
use ycm_harness.Continuation.Labels.{append_text}
use ycm_harness.Autonomy.Watchdog.{
  ExpectedSlot, at_0900, at_1700, at_2300, FailureClass, app_runtime_lifecycle, agent_output,
  SlotReceipt, MissedSlot, GapIssue, RuntimeSnapshot, WatchdogState, DueSlot, Platform, same_slot,
  is_ok, is_agent_output, expected_due_slots, classify_miss,
}
use ycm_harness.Autonomy.Watchdog.Files.{
  WatchdogFault, watchdog_now_invalid, watchdog_state_invalid, watchdog_gap_conflict, optional,
  is_open, list_gaps, find_live, update_gap, create_gap, resolve_gap, list_for_date, read_receipt,
}
use ycm_harness.Autonomy.Watchdog.Tick.Sightings.{
  TickOutcome, TickResult, WatchdogFiles, read_state, confirmed, sightings, as_missed, as_recovered,
  live_gap, same_missed, all_ok, gap_open, gap_updated, gap_resolved, disabled,
}

-- What a tick does to the gap issues: the outcome, `gapIssueId` and the files.
pub record Settled : Type 0 where
  pub outcome : TickOutcome
  pub gap_id : Option String
  pub gaps : Dict GapIssue

abbrev pub settled_as : TickOutcome → GapIssue × Dict GapIssue → Settled
settled_as outcome (g, d) = record { outcome = outcome; gap_id = some g.issue_id; gaps = d }

abbrev pub is_confirmed : Option String → Bool
is_confirmed none = false
is_confirmed (some id) = true

abbrev ok_again : Platform → Dict SlotReceipt → Option SlotReceipt → Outcome WatchdogFault Bool
ok_again z d none = returns false
ok_again z d (some r) =
    read_receipt z d r.receipt_id >>= λ back. returns (is_confirmed (confirmed r back))

-- The second look at the receipts of the due slots.
unfoldable pub all_ok_again :
    Platform → Dict SlotReceipt → List DueSlot → Outcome WatchdogFault Bool
unfolding list_for_date read_receipt ◌>>=◌
all_ok_again z d [] = returns true
all_ok_again z d (item ∷ due) =
    let rest = all_ok_again z d due in
    list_for_date z d item.local_date >>= λ day.
    ok_again z d (find (λ r. same_slot r.slot item.slot && is_ok r.status) day) >>= λ b.
    rest >>= λ later. returns (b && later)

abbrev pub recovery :
    Platform
    → String
    → Dict SlotReceipt
    → Dict GapIssue
    → List DueSlot
    → List String
    → GapIssue
    → Bool
    → Outcome WatchdogFault Settled
recovery z at receipts d due recovered live false = returns (settled_as gap_updated (live, d))
recovery z at receipts d due recovered live true =
    resolve_gap z live.issue_id at recovered d >>= λ r. returns (settled_as gap_resolved r)

unfoldable pub settle :
    Platform
    → String
    → WatchdogFiles
    → Option String
    → List DueSlot
    → List String
    → List MissedSlot
    → Option GapIssue
    → Outcome WatchdogFault Settled
unfolding create_gap update_gap resolve_gap all_ok_again same_missed ◌>>=◌
settle z at w saved due recovered [] none =
    returns (record { outcome = all_ok; gap_id = saved; gaps = w.gaps })
settle z at w saved due recovered [] (some live) =
    (if leb (length due) (length recovered) then returns true else all_ok_again z w.receipts due)
    >>= recovery z at w.receipts w.gaps due recovered live
settle z at w saved due recovered (m ∷ missed) none =
    create_gap z (m ∷ missed) at w.gaps >>= λ r. returns (settled_as gap_open r)
settle z at w saved due recovered (m ∷ missed) (some live) =
    (if same_missed live.missed_slots (m ∷ missed)
      then update_gap z live.issue_id (m ∷ missed) at w.gaps
      else update_gap z live.issue_id (m ∷ missed) at w.gaps)
    >>= λ r. returns (settled_as gap_updated r)

-- `id ? { field: id } : {}`
abbrev pub kept_id : Option String → Option String
kept_id none = none
kept_id (some id) = if id == "" then none else some id

abbrev pub next_id : TickOutcome → Option String → Option String
next_id gap_resolved id = none
next_id all_ok id = kept_id id
next_id gap_open id = kept_id id
next_id gap_updated id = kept_id id
next_id disabled id = kept_id id

abbrev pub ticked :
    String → WatchdogFiles → List DueSlot → List MissedSlot → Settled → TickResult × WatchdogFiles
ticked at w due missed s =
    let result : TickResult = record {
      outcome = s.outcome;
      due = due;
      missed = missed;
      gap_issue_id = kept_id s.gap_id;
    } in
    (
      result,
      record {
        saved = some (record {
          enabled = true;
          live_gap_issue_id = next_id s.outcome s.gap_id;
          last_tick_at = some at;
          updated_at = at;
        });
        gaps = s.gaps;
        receipts = w.receipts;
        ticks = w.ticks ++ (at, result) ∷ [];
      },
    )

unfoldable pub tick_enabled :
    Platform
    → String
    → RuntimeSnapshot
    → List DueSlot
    → Option String
    → WatchdogFiles
    → Outcome WatchdogFault (TickResult × WatchdogFiles)
unfolding sightings live_gap settle ◌>>=◌
tick_enabled z at runtime due saved w = sightings z w.receipts runtime due >>= λ seen.
    live_gap z w.gaps saved >>= λ live.
    settle z at w saved due (filter_map as_recovered seen) (filter_map as_missed seen) live >>= λ s.
    returns (ticked at w due (filter_map as_missed seen) s)

abbrev pub tick_disabled :
    String → List DueSlot → Option String → WatchdogFiles → TickResult × WatchdogFiles
tick_disabled at due saved w =
    let result : TickResult = record {
      outcome = disabled;
      due = due;
      missed = [];
      gap_issue_id = kept_id saved;
    } in
    (
      result,
      record {
        saved = w.saved;
        gaps = w.gaps;
        receipts = w.receipts;
        ticks = w.ticks ++ (at, result) ∷ [];
      },
    )

-- `tickMissedSlotWatchdog(deps)`, under its lease.
unfoldable pub tick_missed_slot_watchdog :
    Platform
    → String
    → RuntimeSnapshot
    → WatchdogFiles
    → Outcome WatchdogFault (TickResult × WatchdogFiles)
unfolding some_or read_state tick_enabled expected_due_slots ◌>>=◌
tick_missed_slot_watchdog z at runtime w = some_or (z.local_time at) watchdog_now_invalid >>= λ now.
    read_state z w.saved at >>= λ s.
    if s.enabled
    then tick_enabled z at runtime (expected_due_slots z now) s.live_gap_issue_id w
    else returns (tick_disabled at (expected_due_slots z now) s.live_gap_issue_id w)
