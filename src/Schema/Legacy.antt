-- ===== src/Schema/Legacy.antt =====
-- src/schema/{goal,phase,task,checkpoint,smoke,session,ritual,artifact,commit,state}.ts: the V2 state.
use ycm_harness.Common.{ℕ, String, Bool, Option, none, List, [], Dict}
use ycm_harness.Schema.Wiki.{WikiState, empty_wiki_state}
use ycm_harness.Schema.Reviews.{ReviewSession}

pub data GoalStatus : Type 0 where
  draft active blocked done abandoned : GoalStatus

pub data WorktreeStatus : Type 0 where
  pending active merged abandoned : WorktreeStatus

pub record Goal : Type 0 where
  pub id : String
  pub title : String
  pub description : Option String
  pub status : GoalStatus
  pub worktree_path : Option String
  pub branch : Option String
  pub base_sha : Option String
  pub worktree_status : WorktreeStatus
  pub created_at : String
  pub updated_at : String

pub data PhaseKind : Type 0 where
  explore discuss design plan execute validate finish : PhaseKind

pub data PhaseStatus : Type 0 where
  pending active blocked complete skipped : PhaseStatus

pub record Phase : Type 0 where
  pub id : String
  pub goal_id : String
  pub kind : PhaseKind
  pub title : String
  pub summary : Option String
  pub status : PhaseStatus
  pub order : ℕ
  pub created_at : String
  pub updated_at : String

pub data TaskStatus : Type 0 where
  pending active blocked done cancelled : TaskStatus

pub data SmokeRequirement : Type 0 where
  required not_applicable : SmokeRequirement

pub record Task : Type 0 where
  pub id : String
  pub phase_id : String
  pub title : String
  pub brief : Option String
  pub status : TaskStatus
  pub smoke : SmokeRequirement
  pub code_changed : Option Bool
  pub smoke_evidence_ids : List String
  pub order : ℕ
  pub created_at : String
  pub updated_at : String

pub data CheckpointKind : Type 0 where
  phase_transition task_complete blocker decision context_compaction manual : CheckpointKind

pub record Checkpoint : Type 0 where
  pub id : String
  pub goal_id : String
  pub phase_id : Option String
  pub task_id : Option String
  pub kind : CheckpointKind
  pub title : String
  pub notes : Option String
  pub decisions : List String
  pub next_action : Option String
  pub created_at : String

pub data SmokeOutcome : Type 0 where
  pass fail not_applicable : SmokeOutcome

pub data SmokeRecordingMode : Type 0 where
  executed manual : SmokeRecordingMode

-- `exit_code` is the text of an integer.
pub record SmokeEvidence : Type 0 where
  pub id : String
  pub task_id : Option String
  pub phase_id : Option String
  pub outcome : SmokeOutcome
  pub recording_mode : SmokeRecordingMode
  pub command : Option String
  pub environment : Option String
  pub expected : Option String
  pub actual : Option String
  pub exit_code : Option String
  pub log_file : Option String
  pub log_sha256 : Option String
  pub executed_at : Option String
  pub artifact_paths : List String
  pub reason_not_applicable : Option String
  pub recorded_at : String

pub record Session : Type 0 where
  pub id : String
  pub started_at : String
  pub last_seen_at : String
  pub active_goal_id : Option String
  pub active_phase_id : Option String
  pub active_task_id : Option String
  pub notes : Option String

pub data RitualKind : Type 0 where
  grill_me writing_plans ralplan ultrawork ralph review_gate : RitualKind
  project_wiki_update user_wiki_dry_run explore_codebase : RitualKind
  explore_knowledge_base team_execution : RitualKind

pub data RitualStatus : Type 0 where
  complete blocked : RitualStatus

-- A metadata value of type `unknown`: a boolean, a text, or anything else.
pub data Metadata : Type 0 where
  flag : Bool → Metadata
  text : String → Metadata
  other : Metadata

pub record RitualRecord : Type 0 where
  pub id : String
  pub goal_id : String
  pub phase_id : String
  pub kind : RitualKind
  pub status : RitualStatus
  pub evidence_path : String
  pub summary : String
  pub metadata : Dict Metadata
  pub created_at : String

pub data ArtifactKind : Type 0 where
  user_story prd design implementation_plan test_plan progress explore_report : ArtifactKind
  explore_synthesis review_output execution_ledger : ArtifactKind

pub record Artifact : Type 0 where
  pub id : String
  pub goal_id : String
  pub phase_id : Option String
  pub kind : ArtifactKind
  pub path : String
  pub summary : Option String
  pub created_at : String
  pub updated_at : String

pub record CommitRecord : Type 0 where
  pub id : String
  pub goal_id : String
  pub task_id : String
  pub sha : String
  pub summary : String
  pub created_at : String

pub record SessionNudge : Type 0 where
  pub user_msgs_since_wiki_write : ℕ
  pub last_wiki_write_at : Option String
  pub last_user_msg_at : Option String

-- The state of version 2.
pub record State : Type 0 where
  pub created_at : String
  pub updated_at : String
  pub active_goal_id : Option String
  pub active_session_id : Option String
  pub goals : Dict Goal
  pub phases : Dict Phase
  pub tasks : Dict Task
  pub checkpoints : Dict Checkpoint
  pub smoke : Dict SmokeEvidence
  pub sessions : Dict Session
  pub wiki : WikiState
  pub reviews : Dict ReviewSession
  pub rituals : Dict RitualRecord
  pub artifacts : Dict Artifact
  pub commits : Dict CommitRecord
  pub session_nudge : SessionNudge

abbrev pub empty_nudge : SessionNudge
empty_nudge = record {
  user_msgs_since_wiki_write = 0;
  last_wiki_write_at = none;
  last_user_msg_at = none;
}

abbrev pub empty_state : String → State
empty_state now = record {
  created_at = now;
  updated_at = now;
  active_goal_id = none;
  active_session_id = none;
  goals = [];
  phases = [];
  tasks = [];
  checkpoints = [];
  smoke = [];
  sessions = [];
  wiki = empty_wiki_state;
  reviews = [];
  rituals = [];
  artifacts = [];
  commits = [];
  session_nudge = empty_nudge;
}
