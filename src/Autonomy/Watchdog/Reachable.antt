-- ===== src/Autonomy/Watchdog/Reachable.antt =====
-- What runs of the watchdog of src/autonomy/missed-slot-watchdog.ts leave of its files.
use ycm_harness.Common.{
  ◌≡◌, refl, sym, ◌∙◌, subst, inl, inr, String, Bool, true, Option, none, some, [], arith, Dict,
  lookup, Bool-cases, and-eq-true_iff, Outcome, returns, ◌>>=◌, ◌>>◌, require, some_or,
}
use ycm_harness.Autonomy.Watchdog.{
  GapIssue, SlotReceipt, RuntimeSnapshot, WatchdogState, LocalTime, Platform,
}
use ycm_harness.Autonomy.Watchdog.Files.{
  is_slot_receipt, optional, parsed, is_open, Written, in_receipts, written_at, WatchdogFault,
  write_slot_receipt,
}
use ycm_harness.Autonomy.Watchdog.Files.Loaded.{assigned}
use ycm_harness.Autonomy.Watchdog.Tick.{tick_missed_slot_watchdog}
use ycm_harness.Autonomy.Watchdog.Tick.Sightings.{
  TickResult, WatchdogFiles, default_state, is_watchdog_state, read_state, enabled_as, set_enabled,
}
use ycm_harness.Autonomy.Watchdog.Tick.GapsLeft.{Follows}
use ycm_harness.Autonomy.Watchdog.Tick.Watched.{
  KeptFiles, of_some, WellFormatted, tick_missed_slot_watchdog-Watched,
}

-- Before the first run.
abbrev pub no_files : WatchdogFiles
no_files = record { saved = none; gaps = []; receipts = []; ticks = [] }

abbrev pub with_receipts : WatchdogFiles → Dict SlotReceipt → WatchdogFiles
with_receipts w d = record { saved = w.saved; gaps = w.gaps; receipts = d; ticks = w.ticks }

-- A tick, a switch, or a receipt that a scheduled job writes to a file directly in the directory of
-- receipts, which is where an identifier without path separators leads.
pub data WatchdogStep (z : Platform) (w : WatchdogFiles) : WatchdogFiles → Type 0 where
  tick_step :
      (at : String) (now : LocalTime) (runtime : RuntimeSnapshot) (res : TickResult)
      (w' : WatchdogFiles)
      → z.is_time at ≡ true
      → z.local_time at ≡ some now
      → tick_missed_slot_watchdog z at runtime w ≡ returns (res, w')
      → WatchdogStep z w w'
  switch_step :
      (on : Bool) (at : String) (w' : WatchdogFiles)
      → z.is_time at ≡ true
      → set_enabled z on at w ≡ returns w'
      → WatchdogStep z w w'
  receive_step :
      (r : SlotReceipt) (d : Dict SlotReceipt)
      → write_slot_receipt z r w.receipts ≡ returns (in_receipts d)
      → WatchdogStep z w (with_receipts w d)

pub data WatchdogRun (z : Platform) : WatchdogFiles → Type 0 where
  unstarted : WatchdogRun z no_files
  then_step : {w w' : WatchdogFiles} → WatchdogRun z w → WatchdogStep z w w' → WatchdogRun z w'

no_files-Kept : (z : Platform) → KeptFiles z no_files
unfolding lookup
no_files-Kept z = record {
  receipts = λ k a h. cc;
  placed = λ k a h. cc;
  gaps = record { valid = λ k a h. cc; named = λ k a h. cc; single = λ k g h. cc };
  state_valid = λ s h. cc;
  state_follows = λ s h. cc;
}

of_returns {κ} :
    {A : Type 0} {E : Type 0} (P : A → Type κ) {a b : A}
    → ◌≡◌ {A = Outcome E A} (returns a) (returns b)
    → P a
    → P b
of_returns P {a} {b} e h = let same : a ≡ b = ground arith in subst P same h

of_written {κ} :
    (P : Dict SlotReceipt → Type κ) {a b : Dict SlotReceipt}
    → in_receipts a ≡ in_receipts b
    → P a
    → P b
of_written P {a} {b} e h = let same : a ≡ b = ground arith in subst P same h

enabled_as-valid :
    (z : Platform) (on : Bool) (at : String) (s : WatchdogState)
    → z.is_time at ≡ true
    → optional z.is_time s.last_tick_at ≡ true
    → optional z.is_id s.live_gap_issue_id ≡ true
    → is_watchdog_state z (enabled_as on at s) ≡ true
unfolding is_watchdog_state
enabled_as-valid z on at s timed last live = rw (timed, last, live) refl

state-parts :
    (z : Platform) (s : WatchdogState)
    → is_watchdog_state z s ≡ true
    → (optional z.is_time s.last_tick_at ≡ true) × (optional z.is_id s.live_gap_issue_id ≡ true)
unfolding is_watchdog_state
state-parts z s h =
    let (live, rest) = (and-eq-true_iff _ _).0 h in (((and-eq-true_iff _ _).0 rest).0, live)

abbrev switched : WatchdogFiles → Bool → String → WatchdogState → WatchdogFiles
switched w on at s = record {
  saved = some (enabled_as on at s);
  gaps = w.gaps;
  receipts = w.receipts;
  ticks = w.ticks;
}

module _ (z : Platform) (w : WatchdogFiles) (kept : KeptFiles z w) where
  switched-Kept :
      (on : Bool) (at : String) (s : WatchdogState)
      → is_watchdog_state z (enabled_as on at s) ≡ true
      → Follows w.gaps s.live_gap_issue_id
      → KeptFiles z (switched w on at s)
  switched-Kept on at s valid follows = record {
    receipts = kept.receipts;
    placed = kept.placed;
    gaps = kept.gaps;
    state_valid = λ t e. of_some (λ t. is_watchdog_state z t ≡ true) e valid;
    state_follows = λ t e. of_some (λ t. Follows w.gaps t.live_gap_issue_id) e follows;
  }

  switch-Kept :
      (on : Bool) (at : String) (w' : WatchdogFiles)
      → z.is_time at ≡ true
      → (o : Option WatchdogState) → w.saved ≡ o
      → (read_state z o at >>= λ s. returns (switched w on at s)) ≡ returns w'
      → KeptFiles z w'
  unfolding read_state require ◌>>◌ ◌>>=◌
  switch-Kept on at w' timed none e h = of_returns (KeptFiles z) h (
      switched-Kept on at (default_state at)
        (enabled_as-valid z on at (default_state at) timed refl refl) tt)
  switch-Kept on at w' timed (some s) e h =
      let valid = kept.state_valid s e in
      let (last, live) = state-parts z s valid in
      of_returns (KeptFiles z) (rw valid at h) (
        switched-Kept on at s (enabled_as-valid z on at s timed last live) (kept.state_follows s e))

  receive_at :
      (r : SlotReceipt) (d : Dict SlotReceipt) (o : Option String)
      → z.receipt_file r.receipt_id ≡ o
      → is_slot_receipt z r ≡ true
      → written_at o r w.receipts ≡ in_receipts d
      → KeptFiles z (with_receipts w d)
  receive_at r d none at fine h = cc
  receive_at r d (some name) at fine h =
      of_written (λ d. KeptFiles z (with_receipts w d)) h
        (record {
          receipts = λ k a found. elim (assigned name k r a w.receipts found) [
            | inl (same, e) ↦ rw (← e) fine
            | inr old ↦ kept.receipts k a old
          ];
          placed = λ k a found. elim (assigned name k r a w.receipts found) [
            | inl (same, e) ↦ rw (← e) (name, at)
            | inr old ↦ kept.placed k a old
          ];
          gaps = kept.gaps;
          state_valid = kept.state_valid;
          state_follows = kept.state_follows;
        })

  receive-Kept :
      (r : SlotReceipt) (d : Dict SlotReceipt)
      → write_slot_receipt z r w.receipts ≡ returns (in_receipts d)
      → KeptFiles z (with_receipts w d)
  unfolding write_slot_receipt parsed some_or require ◌>>=◌ ◌>>◌
  receive-Kept r d h = elim (Bool-cases (is_slot_receipt z r)) [
    | inr bad ↦ let e = rw bad at h in cc
    | inl fine ↦ receive_at r d (z.receipt_file r.receipt_id) refl fine (written_inj (rw fine at h))
  ]
    where
      written_inj :
          {x y : Written} → ◌≡◌ {A = Outcome WatchdogFault Written} (returns x) (returns y) → x ≡ y
      written_inj e = ground arith

module _ (z : Platform) (formats : WellFormatted z) where
  step-Kept : {w w' : WatchdogFiles} → KeptFiles z w → WatchdogStep z w w' → KeptFiles z w'
  unfolding set_enabled
  step-Kept {w} kept (tick_step at now runtime res w' timed clock h) =
      let (res', w'', ticks, watched) =
        tick_missed_slot_watchdog-Watched z at runtime w kept now formats timed clock in
      of_returns (λ p. KeptFiles z p.1) (sym ticks ∙ h) watched.kept
  step-Kept {w} kept (switch_step on at w' timed h) =
      switch-Kept z w kept on at w' timed w.saved refl h
  step-Kept {w} kept (receive_step r d h) = receive-Kept z w kept r d h

  pub run-Kept : {w : WatchdogFiles} → WatchdogRun z w → KeptFiles z w
  run-Kept unstarted = no_files-Kept z
  run-Kept (then_step run step) = step-Kept (run-Kept run) step

-- Whatever ticks, switches and receipts came before, at valid times, with the formats of the
-- schemas and with each receipt written to a file directly in the directory of receipts, two open gap issues are one and the same, the state refers to no other issue while one
-- is open, and the next tick returns.
pub run_at_most_one_open :
    (z : Platform) (w : WatchdogFiles) (at : String) (now : LocalTime) (runtime : RuntimeSnapshot)
    → WellFormatted z
    → WatchdogRun z w
    → z.is_time at ≡ true
    → z.local_time at ≡ some now
    → ((j k : String) (g h : GapIssue)
        → lookup j w.gaps ≡ some g
        → is_open g ≡ true
        → lookup k w.gaps ≡ some h
        → is_open h ≡ true
        → j ≡ k)
      × ((s : WatchdogState) → w.saved ≡ some s → Follows w.gaps s.live_gap_issue_id)
      × ((res : TickResult) × (w' : WatchdogFiles) × (tick_missed_slot_watchdog z at runtime w
            ≡ returns (res, w')))
run_at_most_one_open z w at now runtime formats run timed clock =
    let kept = run-Kept z formats run in
    let (res, w', ticks, watched) =
      tick_missed_slot_watchdog-Watched z at runtime w kept now formats timed clock in
    (
      λ j k g h e is e' is'. sym (kept.gaps.single j g e is k h e' is'),
      kept.state_follows,
      (res, w', ticks),
    )
