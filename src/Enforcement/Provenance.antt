-- ===== src/Enforcement/Provenance.antt =====
-- src/enforcement/review-provenance.ts: the checks on review evidence and on a session's verdict.
pub mod Sound
use Prim.Native.Char.{code}
use Prim.Native.String
use ycm_harness.Common.{
  ℕ, ◌+◌, ◌*◌, String, Bool, true, false, not, ◌&&◌, ◌||◌, Option, none, some, List, [], ◌∷◌, ◌++◌,
  ◌==◌, Host, ltb, leb, if◌then◌else◌, truthy, lower_is, trim, lookup, length, push_if, is_empty,
  is_some,
}
use ycm_harness.Schema.Reviews.{
  ReviewerKind, ReviewerSource, orchestrator, subagent, ReviewerVerdict, ReviewSession, Score,
  Severity,
}
use ycm_harness.Schema.Legacy.{State, ArtifactKind, review_output}
use ycm_harness.Enforcement.StrictMode.{
  Env, strict_gates_enabled, allow_orchestrator_review, review_min_deliberation_seconds,
}

pub record ReviewEvidenceFinding : Type 0 where
  pub severity : Severity
  pub title : String
  pub notes : Option String

pub record ReviewEvidence : Type 0 where
  pub session_id : String
  pub reviewer : ReviewerKind
  pub score : Score
  pub reviewer_source : ReviewerSource
  pub subagent_kind : String
  pub reviewed_at : String
  pub recommendation : Option String
  pub checks_performed : List String
  pub findings : List ReviewEvidenceFinding
  pub ack_zero_findings_reason : Option String
  pub scope_summary : Option String

-- The texts of the violations, by what they say.
pub data Violation : Type 0 where
  session_id_differs reviewer_differs no_checks_performed orchestrator_blocked : Violation
  subagent_kind_not_distinct zero_findings_unexplained : Violation
  missing_evidence_file missing_subagent_kind orchestrator_sourced : Violation
  artifact_not_registered : String → Violation
  artifact_not_review_output evidence_not_registered : Violation
  too_fast : ℕ → Violation

abbrev is_orchestrator : ReviewerSource → Bool
is_orchestrator orchestrator = true
is_orchestrator subagent = false

abbrev is_review_output : ArtifactKind → Bool
is_review_output review_output = true
is_review_output _ = false

-- `s.length`: UTF-16 code units.
utf16_length : String → ℕ
utf16_length String.[] = 0
utf16_length (String.◌∷◌ c s) = (if ltb (code c) 65536 then 1 else 2) + utf16_length s

-- `evidence.ack_zero_findings_reason?.trim() ?? ""` is shorter than 20.
short_reason : Option String → Bool
unfolding utf16_length trim
short_reason none = true
short_reason (some r) = ltb (utf16_length (trim r)) 20

reviewer_name : ReviewerKind → String
reviewer_name ReviewerKind.combined_reviewer = "combined_reviewer"
reviewer_name ReviewerKind.tech_lead = "tech_lead"
reviewer_name ReviewerKind.project_manager = "project_manager"
reviewer_name ReviewerKind.user_advocate = "user_advocate"

-- `validateReviewEvidence(evidence, { sessionId, reviewer })`, as its violations.
pub validate_review_evidence : Env → ReviewEvidence → String → String → List Violation
unfolding short_reason reviewer_name allow_orchestrator_review lower_is
validate_review_evidence env e session_id reviewer =
    push_if (not (e.session_id == session_id)) session_id_differs
    ++ (push_if (not (reviewer_name e.reviewer == reviewer)) reviewer_differs
        ++ (push_if (ltb (length e.checks_performed) 1) no_checks_performed
            ++ (push_if (is_orchestrator e.reviewer_source && not (allow_orchestrator_review env))
                  orchestrator_blocked
                ++ (push_if
                      (not (is_orchestrator e.reviewer_source)
                        && (e.subagent_kind == "" || lower_is e.subagent_kind "orchestrator"))
                      subagent_kind_not_distinct
                    ++ push_if (is_empty e.findings && short_reason e.ack_zero_findings_reason)
                        zero_findings_unexplained))))

abbrev orchestrator_given : Option ReviewerSource → Bool
orchestrator_given none = false
orchestrator_given (some s) = is_orchestrator s

-- The registration of the evidence as an artifact.
artifact_violations : State → Option String → List Violation
artifact_violations state none = evidence_not_registered ∷ []
artifact_violations state (some id) =
    if id == "" then evidence_not_registered ∷ [] else elim (lookup id state.artifacts) [
      | none ↦ artifact_not_registered id ∷ []
      | some art ↦ push_if (not (is_review_output art.kind)) artifact_not_review_output
    ]

-- One round of the loop over the verdicts; a missing evidence file ends it.
verdict_violations : Env → State → ReviewerVerdict → List Violation
unfolding artifact_violations
verdict_violations env state v =
    if truthy v.evidence_file
    then push_if (not (truthy v.subagent_kind)) missing_subagent_kind
      ++ (push_if (orchestrator_given v.reviewer_source && not (allow_orchestrator_review env))
            orchestrator_sourced
          ++ artifact_violations state v.evidence_artifact_id)
    else missing_evidence_file ∷ []

-- The minimal time, in milliseconds, between the opening of the session and its verdict.
hasty : Option ℕ → Option ℕ → ℕ → Bool
hasty (some first_at) (some opened_at) min_sec = ltb first_at (opened_at + 1000 * min_sec)
hasty (some first_at) none min_sec = false
hasty none opened min_sec = false

deliberation_violations : Host → Env → ReviewSession → ReviewerVerdict → List Violation
unfolding hasty
deliberation_violations host env session v =
    let min_sec = review_min_deliberation_seconds env in
    push_if
      (ltb 0 min_sec
        && hasty (host.date_parse v.recorded_at) (host.date_parse session.opened_at) min_sec)
      (too_fast min_sec)

abbrev pub combined_of : ReviewSession → Option ReviewerVerdict
combined_of session = lookup "combined_reviewer" session.verdicts

-- `checkSessionProvenance(session, state)`, as its violations; `ok` is that there is none.
unfoldable pub check_session_provenance : Host → Env → ReviewSession → State → List Violation
unfolding verdict_violations deliberation_violations
check_session_provenance host env session state =
    if strict_gates_enabled env
    then elim (combined_of session) [
      | none ↦ []
      | some v ↦ verdict_violations env state v ++ deliberation_violations host env session v
    ]
    else []
