-- ===== src/Review/Tests.antt =====
-- Gates of review sessions at concrete inputs.
use ycm_harness.Common.{
  ◌≡◌, refl, ◌≢◌, ◌↔◌, ◌≤◌, false, none, some, [], ◌∷◌, lookup, code_point_host, length,
}
use ycm_harness.Schema.Legacy.{State, Artifact, ArtifactKind, empty_state}
use ycm_harness.Schema.Reviews.{
  ReviewSession, ReviewSessionStatus, TargetKind, ReviewerVerdict, ReviewerKind, ReviewerSource,
  Finding, Severity, power_of_ten,
}
use ycm_harness.Enforcement.StrictMode.{Env, strict_gates_enabled}
use ycm_harness.Enforcement.Provenance.{check_session_provenance}
use ycm_harness.Enforcement.Provenance.Sound.{Provenanced, provenance_iff}
use ycm_harness.Review.{
  decide_gate, decide_by_score, gate_violations, passed, blocked, aggregate_review,
  reaches_min_score, min_score_of, least_score, count_unresolved, count_all, GateStatus,
}
use ycm_harness.Review.Gate.{MayPass, decide_gate-passed, decide_gate-blocked}

abbrev strict : Env
strict = record { strict_gates = none; allow_orchestrator = none; review_min_seconds = none }

abbrev verdict : ReviewerVerdict
verdict = record {
  reviewer = ReviewerKind.combined_reviewer;
  score = record { units = 90; digits = 0 };
  recommendation = none;
  finding_ids = [];
  evidence_file = some "review.json";
  evidence_artifact_id = some "a1";
  reviewer_source = some ReviewerSource.subagent;
  subagent_kind = some "critic";
  recorded_at = "2024-01-02";
}

abbrev open_high : Finding
open_high = record {
  id = "f1";
  severity = Severity.high;
  title = "F";
  notes = none;
  reviewer = ReviewerKind.combined_reviewer;
  resolved = false;
  resolved_at = none;
  resolved_in_round = none;
}

abbrev session : ReviewSession
session = record {
  id = "r1";
  target_kind = TargetKind.phase;
  target_id = "p1";
  goal_id = "g1";
  status = ReviewSessionStatus.opened;
  verdicts = ("combined_reviewer", verdict) ∷ [];
  findings = ("f1", open_high) ∷ [];
  rounds = [];
  followups_drained = false;
  opened_at = "2024-01-01";
  closed_at = none;
}

abbrev report : Artifact
report = record {
  id = "a1";
  goal_id = "g1";
  phase_id = none;
  kind = ArtifactKind.review_output;
  path = "review.json";
  summary = none;
  created_at = "2024-01-01";
  updated_at = "2024-01-01";
}

abbrev state : State
state = record (empty_state "2024-01-01") { artifacts = ("a1", report) ∷ [] }

provenance_iff_example :
    (check_session_provenance code_point_host strict session state ≡ [])
    ↔ Provenanced code_point_host strict session state verdict
unfolding strict_gates_enabled lookup
provenance_iff_example = provenance_iff code_point_host strict session state verdict refl refl

decide_gate-passed_example :
    ((decide_gate code_point_host strict session (some state)).status ≡ passed)
    ↔ ((v : ReviewerVerdict) × MayPass code_point_host strict session state v)
decide_gate-passed_example = decide_gate-passed code_point_host strict session state

asks_for_fixes :
    (decide_gate code_point_host strict session none).status ≡ GateStatus.needs_fix_loop
unfolding decide_gate lookup decide_by_score aggregate_review reaches_min_score power_of_ten
    min_score_of least_score count_unresolved count_all
asks_for_fixes = refl

fails : (decide_gate code_point_host strict session none).status ≢ passed
fails h = differ (rw asks_for_fixes at h)
  where
    differ : GateStatus.needs_fix_loop ≡ passed → ⊥
    differ e = cc

decide_gate-blocked_example :
    ((decide_gate code_point_host strict session none).status ≡ blocked)
    ↔ ((gate_violations code_point_host strict session none ≡ []) × (3 ≤ length session.rounds))
unfolding lookup
decide_gate-blocked_example =
    decide_gate-blocked code_point_host strict session none verdict refl fails
