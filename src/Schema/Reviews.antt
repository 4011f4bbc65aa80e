-- ===== src/Schema/Reviews.antt =====
-- src/schema/review.ts and src/schema/review-evidence.ts. A score is a decimal number between 0
-- and 100, written as `units / 10 ^ digits`.
use ycm_harness.Common.{ℕ, zero, suc, ◌*◌, String, Bool, Option, List, Dict}

pub data ReviewerKind : Type 0 where
  combined_reviewer tech_lead project_manager user_advocate : ReviewerKind

pub data Severity : Type 0 where
  high medium low : Severity

pub record Finding : Type 0 where
  pub id : String
  pub severity : Severity
  pub title : String
  pub notes : Option String
  pub reviewer : ReviewerKind
  pub resolved : Bool
  pub resolved_at : Option String
  pub resolved_in_round : Option ℕ

pub data ReviewerSource : Type 0 where
  subagent orchestrator : ReviewerSource

pub record Score : Type 0 where
  pub units : ℕ
  pub digits : ℕ

-- `10 ^ digits`.
unfoldable pub power_of_ten : ℕ → ℕ
power_of_ten zero = 1
power_of_ten (suc digits) = 10 * power_of_ten digits

abbrev pub scale_of : Score → ℕ
scale_of s = power_of_ten s.digits

pub record ReviewerVerdict : Type 0 where
  pub reviewer : ReviewerKind
  pub score : Score
  pub recommendation : Option String
  pub finding_ids : List String
  pub evidence_file : Option String
  pub evidence_artifact_id : Option String
  pub reviewer_source : Option ReviewerSource
  pub subagent_kind : Option String
  pub recorded_at : String

abbrev pub fix_loop_max_rounds : ℕ
fix_loop_max_rounds = 3

pub record FixLoopRound : Type 0 where
  pub number : ℕ
  pub rca : String
  pub evidence : String
  pub three_whys : String
  pub plan : String
  pub address_why : String
  pub fix : String
  pub recorded_at : String

pub data ReviewSessionStatus : Type 0 where
  opened fix_loop blocked passed failed : ReviewSessionStatus

pub data TargetKind : Type 0 where
  task phase : TargetKind

pub record ReviewSession : Type 0 where
  pub id : String
  pub target_kind : TargetKind
  pub target_id : String
  pub goal_id : String
  pub status : ReviewSessionStatus
  pub verdicts : Dict ReviewerVerdict
  pub findings : Dict Finding
  pub rounds : List FixLoopRound
  pub followups_drained : Bool
  pub opened_at : String
  pub closed_at : Option String
