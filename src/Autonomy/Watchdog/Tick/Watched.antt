-- ===== src/Autonomy/Watchdog/Tick/Watched.antt =====
-- The tick of src/autonomy/missed-slot-watchdog.ts, from files that the watchdog wrote.
use ycm_harness.Common.{
  ◌≡◌, ◌≢◌, refl, subst, ◌↔◌, ◌⊎◌, inl, inr, String, Bool, true, Option, none, some, List, [],
  arith, filter_map, In, Bool-cases, and-eq-true_iff, returns, ◌>>=◌, ◌>>◌, require, some_or,
}
use ycm_harness.Autonomy.Watchdog.{
  MissedSlot, RuntimeSnapshot, WatchdogState, LocalTime, DueSlot, Platform, expected_due_slots,
}
use ycm_harness.Autonomy.Watchdog.Files.{is_slot_receipt, optional}
use ycm_harness.Autonomy.Watchdog.Files.Loaded.{AllValid}
use ycm_harness.Autonomy.Watchdog.Files.Single.{NoneOpen, GoodGaps, OpenWith}
use ycm_harness.Autonomy.Watchdog.Tick.{
  ticked, tick_disabled, tick_enabled, tick_missed_slot_watchdog,
}
use ycm_harness.Autonomy.Watchdog.Tick.Sightings.{
  TickResult, WatchdogFiles, disabled, default_state, is_watchdog_state, read_state, as_missed,
  as_recovered,
}
use ycm_harness.Autonomy.Watchdog.Tick.Due.{Due, expected_due_slots_iff, due_few, due_dated}
use ycm_harness.Autonomy.Watchdog.Tick.Lapses.{Misses, Confirmed}
use ycm_harness.Autonomy.Watchdog.Tick.Sighted.{AllPlaced, sightings_lem}
use ycm_harness.Autonomy.Watchdog.Tick.GapsLeft.{Follows, live_gap_lem, settle-Left}

-- The files of the watchdog between two runs.
pub record KeptFiles (z : Platform) (w : WatchdogFiles) : Type 0 where
  pub receipts : AllValid (is_slot_receipt z) w.receipts
  pub placed : AllPlaced z w.receipts
  pub gaps : GoodGaps z w.gaps
  pub state_valid : (s : WatchdogState) → w.saved ≡ some s → is_watchdog_state z s ≡ true
  pub state_follows : (s : WatchdogState) → w.saved ≡ some s → Follows w.gaps s.live_gap_issue_id

-- What the code relies on: local dates and the identifiers of new issues have the formats that the
-- schemas ask for.
pub record WellFormatted (z : Platform) : Type 0 where
  pub today :
      (at : String) (now : LocalTime) → z.local_time at ≡ some now → z.is_date now.local_date ≡ true
  pub yesterday :
      (at : String) (now : LocalTime)
      → z.local_time at ≡ some now
      → z.is_date (z.day_before now.local_date) ≡ true
  pub named : (at : String) (missed : List MissedSlot) → z.is_id (z.gap_id at missed) ≡ true

-- What a tick leaves.
pub record Watched (z : Platform) (at : String) (now : LocalTime) (w : WatchdogFiles)
    (res : TickResult) (w' : WatchdogFiles) : Type 0 where
  pub kept : KeptFiles z w'
  pub due : (item : DueSlot) → In item res.due ↔ Due z now item
  pub off : res.outcome ≡ disabled → w'.gaps ≡ w.gaps
  pub quiet : res.outcome ≢ disabled → res.missed ≡ [] → NoneOpen w'.gaps
  pub explained :
      res.outcome ≢ disabled
      → (m : MissedSlot) → In m res.missed
      → (item : DueSlot) × In item res.due × Misses z w.receipts item m
  pub covered :
      res.outcome ≢ disabled
      → (item : DueSlot) → In item res.due
      → ((m : MissedSlot) × In m res.missed × Misses z w.receipts item m)
        ⊎ ((id : String) × Confirmed z w.receipts item id)
  pub alarm :
      res.outcome ≢ disabled → res.missed ≢ [] → (id : String) × OpenWith res.missed at id w'.gaps

state-id_valid :
    (z : Platform) (s : WatchdogState)
    → is_watchdog_state z s ≡ true
    → optional z.is_id s.live_gap_issue_id ≡ true
unfolding is_watchdog_state
state-id_valid z s h = ((and-eq-true_iff _ _).0 h).0

-- The state that a tick writes.
new_state-valid :
    (z : Platform) (at : String) (on : Bool) (o : Option String)
    → z.is_time at ≡ true
    → optional z.is_id o ≡ true
    → is_watchdog_state z
        (record { enabled = on; live_gap_issue_id = o; last_tick_at = some at; updated_at = at })
      ≡ true
unfolding is_watchdog_state
new_state-valid z at on o timed h = rw (h, timed) refl

pub of_some {ℓ κ} : {A : Type ℓ} (P : A → Type κ) {a b : A} → some a ≡ some b → P a → P b
of_some P {a} {b} e h = let same : a ≡ b = ground arith in subst P same h

module _ (z : Platform) (at : String) (runtime : RuntimeSnapshot) (w : WatchdogFiles)
    (kept : KeptFiles z w) where
  state_lem :
      (saved : Option WatchdogState)
      → w.saved ≡ saved
      → (s : WatchdogState) × (read_state z saved at ≡ returns s)
        × (optional z.is_id s.live_gap_issue_id ≡ true)
        × Follows w.gaps s.live_gap_issue_id
  unfolding read_state require ◌>>◌ ◌>>=◌
  state_lem none e = (default_state at, refl, refl, tt)
  state_lem (some s) e =
      let valid = kept.state_valid s e in
      (s, rw valid refl, state-id_valid z s valid, kept.state_follows s e)

  module _ (now : LocalTime) (formats : WellFormatted z) (timed : z.is_time at ≡ true)
      (clock : z.local_time at ≡ some now) where
    enabled-Watched :
        (saved : Option String)
        → optional z.is_id saved ≡ true
        → Follows w.gaps saved
        → (res : TickResult) × (w' : WatchdogFiles) × (tick_enabled z at runtime
              (expected_due_slots z now)
              saved
              w
            ≡ returns (res, w'))
          × Watched z at now w res w'
    unfolding tick_enabled ◌>>=◌
    enabled-Watched saved valid follows =
        let due = expected_due_slots z now in
        let (l, seen, tally) = sightings_lem z w.receipts kept.receipts kept.placed runtime due in
        let missed = filter_map as_missed l in
        let (o, live, found, open_one) = live_gap_lem z w.gaps kept.gaps saved follows in
        let dates =
          tally.dates
            (due_dated z now (formats.today at now clock) (formats.yesterday at now clock)) in
        let (s, settled, left) =
          settle-Left z at w kept.gaps saved valid timed due (filter_map as_recovered l) tally.ids
            missed tally.count (due_few z now) dates (formats.named at missed) o found open_one in
        (
          (ticked at w due missed s).0,
          (ticked at w due missed s).1,
          rw (seen, live, settled) refl,
          record {
            kept = record {
              receipts = kept.receipts;
              placed = kept.placed;
              gaps = left.good;
              state_valid = λ st e.
                  of_some (λ st. is_watchdog_state z st ≡ true) e
                    (new_state-valid z at true _ timed left.id_valid);
              state_follows =
                  λ st e. of_some (λ st. Follows s.gaps st.live_gap_issue_id) e left.follows;
            };
            due = expected_due_slots_iff z now;
            off = λ e. absurd (left.ran e);
            quiet = λ n e. left.quiet e;
            explained = λ n. tally.explained;
            covered = λ n. tally.covered;
            alarm = λ n ne. left.alarm ne;
          },
        )

    pub tick_missed_slot_watchdog-Watched :
        (res : TickResult) × (w' : WatchdogFiles) × (tick_missed_slot_watchdog z at runtime w
          ≡ returns (res, w'))
        × Watched z at now w res w'
    unfolding tick_missed_slot_watchdog some_or ◌>>=◌
    tick_missed_slot_watchdog-Watched =
        let (s, read, valid, follows) = state_lem w.saved refl in
        elim (Bool-cases s.enabled) [
          | inl on ↦
              let (res, w', ticks, watched) = enabled-Watched s.live_gap_issue_id valid follows in
              (res, w', rw (clock, read, on) ticks, watched)
          | inr off ↦ (
            (tick_disabled at (expected_due_slots z now) s.live_gap_issue_id w).0,
            (tick_disabled at (expected_due_slots z now) s.live_gap_issue_id w).1,
            rw (clock, read, off) refl,
            record {
              kept = record {
                receipts = kept.receipts;
                placed = kept.placed;
                gaps = kept.gaps;
                state_valid = kept.state_valid;
                state_follows = kept.state_follows;
              };
              due = expected_due_slots_iff z now;
              off = λ e. refl;
              quiet = λ n. absurd (n refl);
              explained = λ n. absurd (n refl);
              covered = λ n. absurd (n refl);
              alarm = λ n. absurd (n refl);
            },
          )
        ]
