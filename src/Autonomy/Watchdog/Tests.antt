-- ===== src/Autonomy/Watchdog/Tests.antt =====
-- The watchdog of src/autonomy/missed-slot-watchdog.ts at concrete inputs.
use ycm_harness.Common.{
  ◌≡◌, refl, String, ◌==◌, if◌then◌else◌, true, none, some, [], ◌∷◌, lookup, assign, length, sort,
  insert, returns, ◌>>=◌, ◌>>◌, require, some_or,
}
use ycm_harness.Continuation.Labels.{append_text}
use ycm_harness.Autonomy.Watchdog.{
  at_0900, ok, SlotReceipt, GapIssue, RuntimeSnapshot, WatchdogState, LocalTime, Platform,
  expected_due_slots, classify_miss,
}
use ycm_harness.Autonomy.Watchdog.Files.{
  is_slot_receipt, is_open, parsed, load, load_all, list_gaps, find_live, update_gap, create_gap,
  list_for_date, read_receipt, in_receipts, write_slot_receipt,
}
use ycm_harness.Autonomy.Watchdog.Tick.{settle, tick_enabled, tick_missed_slot_watchdog}
use ycm_harness.Autonomy.Watchdog.Tick.Sightings.{
  TickResult, WatchdogFiles, read_state, sight, sightings, live_gap,
}
use ycm_harness.Autonomy.Watchdog.Tick.GapsLeft.{Follows}
use ycm_harness.Autonomy.Watchdog.Tick.Watched.{WellFormatted, Watched}
use ycm_harness.Autonomy.Watchdog.Reachable.{
  no_files, with_receipts, tick_step, receive_step, WatchdogRun, unstarted, then_step,
  run_at_most_one_open,
}

abbrev ten_o_clock : LocalTime
ten_o_clock = record { local_date = "2026-01-02"; hour = 10; minute = 0 }

abbrev lenient : Platform
lenient = record {
  local_time = λ at. some ten_o_clock;
  day_before = λ date. "2026-01-01";
  is_id = λ s. true;
  is_time = λ s. true;
  is_date = λ s. true;
  is_observed = λ s. true;
  gap_id = λ at missed. "gap-0123456789abcdef";
  receipt_file = λ id. if id == "r1" then some id else none;
  outside = λ id. none;
}

formatted : WellFormatted lenient
formatted = record {
  today = λ at now h. refl;
  yesterday = λ at now h. refl;
  named = λ at missed. refl;
}

abbrev up : RuntimeSnapshot
up = record { app_available = true; scheduler_reachable = true }

abbrev morning : SlotReceipt
morning = record {
  slot = at_0900;
  local_date = "2026-01-02";
  receipt_id = "r1";
  observed_at = "2026-01-02T01:00:00.000Z";
  status = ok;
  failure_class = none;
  evidence_class = none;
  natural = none;
}

abbrev noon : String
noon = "2026-01-02T02:00:00.000Z"

morning_written :
    write_slot_receipt lenient morning [] ≡ returns (in_receipts (("r1", morning) ∷ []))
unfolding write_slot_receipt parsed is_slot_receipt some_or require ◌>>=◌ ◌>>◌ assign
morning_written = refl

abbrev morning_files : WatchdogFiles
morning_files = with_receipts no_files (("r1", morning) ∷ [])

received : WatchdogRun lenient morning_files
received = then_step unstarted (receive_step morning (("r1", morning) ∷ []) morning_written)

-- The three slots of the day before are missed, that of the morning is not.
three_missed :
    (res : TickResult) × (w' : WatchdogFiles) × (tick_missed_slot_watchdog lenient noon up
        morning_files
      ≡ returns (res, w'))
    × (length res.missed ≡ 3)
unfolding tick_missed_slot_watchdog tick_enabled settle create_gap update_gap find_live list_gaps
    load_all load parsed lookup live_gap sightings sight list_for_date read_receipt classify_miss
    expected_due_slots read_state is_slot_receipt some_or require ◌>>=◌ ◌>>◌ assign sort insert
    append_text
three_missed = (_, _, refl, refl)

ticked_once : WatchdogRun lenient three_missed.1
ticked_once =
    then_step received
      (tick_step noon ten_o_clock up three_missed.0 three_missed.1 refl refl three_missed.2)

run_at_most_one_open_example :
    ((j k : String) (g h : GapIssue)
      → lookup j three_missed.1.gaps ≡ some g
      → is_open g ≡ true
      → lookup k three_missed.1.gaps ≡ some h
      → is_open h ≡ true
      → j ≡ k)
    × ((s : WatchdogState)
        → three_missed.1.saved ≡ some s
        → Follows three_missed.1.gaps s.live_gap_issue_id)
    × ((res : TickResult) × (w' : WatchdogFiles) × (tick_missed_slot_watchdog lenient noon up
            three_missed.1
          ≡ returns (res, w')))
run_at_most_one_open_example =
    run_at_most_one_open lenient three_missed.1 noon ten_o_clock up formatted ticked_once refl refl
