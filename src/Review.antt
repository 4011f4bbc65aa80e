-- ===== src/Review.antt =====
-- src/review/policy.ts: the aggregate of a review session and the decision on its gate.
pub mod Gate
mod Tests
use ycm_harness.Common.{
  ℕ, suc, ◌+◌, ◌*◌, String, Bool, true, false, not, ◌&&◌, Option, none, some, List, [], ◌∷◌, map,
  leb, eqb, if◌then◌else◌, Host, lookup, values, length, head?, is_empty,
}
use ycm_harness.Schema.Reviews.{
  Severity, high, medium, low, Score, scale_of, Finding, ReviewerVerdict, ReviewSession,
  fix_loop_max_rounds,
}
use ycm_harness.Schema.Legacy.{State}
use ycm_harness.Enforcement.StrictMode.{Env, strict_gates_enabled}
use ycm_harness.Enforcement.Provenance.{Violation, combined_of, check_session_provenance}

-- `MIN_SCORE = 82.3`: `units / scale_of s >= 823 / 10`.
unfoldable pub reaches_min_score : Score → Bool
reaches_min_score s = leb (823 * scale_of s) (10 * s.units)

abbrev pub max_fix_loop_rounds : ℕ
max_fix_loop_rounds = fix_loop_max_rounds

-- A number for each severity.
pub record Counts : Type 0 where
  pub of_high : ℕ
  pub of_medium : ℕ
  pub of_low : ℕ

abbrev bump : Severity → Counts → Counts
bump high c = record c { of_high = suc c.of_high }
bump medium c = record c { of_medium = suc c.of_medium }
bump low c = record c { of_low = suc c.of_low }

abbrev zero_counts : Counts
zero_counts = record { of_high = 0; of_medium = 0; of_low = 0 }

pub count_all : Counts → List Finding → Counts
count_all c [] = c
count_all c (f ∷ fs) = count_all (bump f.severity c) fs

pub count_unresolved : Counts → List Finding → Counts
count_unresolved c [] = c
count_unresolved c (f ∷ fs) = count_unresolved (if f.resolved then c else bump f.severity c) fs

-- `Math.min` of two scores.
abbrev min_of : Score → Score → Score
min_of a b = if leb (a.units * scale_of b) (b.units * scale_of a) then a else b

least_score : Score → List ReviewerVerdict → Score
least_score s [] = s
least_score s (v ∷ vs) = least_score (min_of s v.score) vs

min_score_of : List ReviewerVerdict → Option Score
unfolding least_score
min_score_of [] = none
min_score_of (v ∷ vs) = some (least_score v.score vs)

pub record ReviewAggregate : Type 0 where
  pub min_score : Option Score
  pub reviewer_count : ℕ
  pub by_severity : Counts
  pub unresolved_by_severity : Counts
  pub meets_score : Bool
  pub meets_severity_gate : Bool
  pub open_blocking : ℕ

abbrev pub verdicts_of : ReviewSession → List ReviewerVerdict
verdicts_of session = elim (combined_of session) [ none ↦ [] | some v ↦ v ∷ [] ]

abbrev score_met : Option Score → Bool
score_met none = false
score_met (some s) = reaches_min_score s

-- `aggregateReview(session)`.
unfoldable pub aggregate_review : ReviewSession → ReviewAggregate
unfolding min_score_of
aggregate_review session =
    let verdicts = verdicts_of session in
    let found = values session.findings in
    let open_findings = count_unresolved zero_counts found in
    record {
      min_score = min_score_of verdicts;
      reviewer_count = length verdicts;
      by_severity = count_all zero_counts found;
      unresolved_by_severity = open_findings;
      meets_score = score_met (min_score_of verdicts);
      meets_severity_gate = eqb open_findings.of_high 0;
      open_blocking = open_findings.of_high;
    }

pub data GateStatus : Type 0 where
  pending needs_fix_loop blocked passed : GateStatus

pub data GateReason : Type 0 where
  need_verdict : GateReason
  provenance_failed : Option Violation → GateReason
  threshold_met : GateReason
  max_rounds : ℕ → GateReason
  round_required : Bool → ℕ → ℕ → GateReason

pub record GateDecision : Type 0 where
  pub status : GateStatus
  pub reason : GateReason

-- The provenance that `decideGate` asks for: none where no state is given.
abbrev gate_violations : Host → Env → ReviewSession → Option State → List Violation
gate_violations host env session none = []
gate_violations host env session (some state) =
    if strict_gates_enabled env then check_session_provenance host env session state else []

-- `decideGate` past the verdict and the provenance.
decide_by_score : ReviewSession → GateDecision
decide_by_score session =
    let agg = aggregate_review session in
    if agg.meets_score && agg.meets_severity_gate
    then record { status = passed; reason = threshold_met }
    else if leb max_fix_loop_rounds (length session.rounds)
    then record { status = blocked; reason = max_rounds agg.open_blocking }
    else record {
      status = needs_fix_loop;
      reason = round_required agg.meets_score agg.open_blocking (length session.rounds + 1);
    }

-- `decideGate(session, state)`.
unfoldable pub decide_gate : Host → Env → ReviewSession → Option State → GateDecision
unfolding decide_by_score
decide_gate host env session state = elim (combined_of session) [
  | none ↦ record { status = pending; reason = need_verdict }
  | some v ↦
      let violations = gate_violations host env session state in
      if is_empty violations
      then decide_by_score session
      else record { status = needs_fix_loop; reason = provenance_failed (head? violations) }
]
