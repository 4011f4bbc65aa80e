-- ===== src/Schema/Lean.antt =====
-- src/schema/v3.ts: the lean V3 state.
use ycm_harness.Common.{ℕ, String, Bool, Option, none, some, List, [], Dict}
use ycm_harness.Schema.Wiki.{WikiState, empty_wiki_state}
use ycm_harness.Schema.Legacy.{WorktreeStatus, CheckpointKind}

pub data GoalStatus : Type 0 where
  planning active verifying blocked done abandoned : GoalStatus

pub data Assurance : Type 0 where
  standard high : Assurance

-- The cache fields that both remote backends carry.
pub record Readback : Type 0 where
  pub last_verified_at : Option String
  pub cache_digest : Option String
  pub available : Option Bool
  pub stale : Option Bool
  pub outage : Option Bool

pub data TicketBackend : Type 0 where
  local : TicketBackend
  github :
      (owner repo project_owner : String) (project_number parent_issue_number : ℕ)
      (cache : Readback)
      → TicketBackend
  multica : (origin workspace_id parent_issue_id : String) (cache : Readback) → TicketBackend

pub record Goal : Type 0 where
  pub id : String
  pub title : String
  pub description : Option String
  pub status : GoalStatus
  pub assurance : Assurance
  pub backend : TicketBackend
  pub active_ticket_id : Option String
  pub worktree_path : Option String
  pub branch : Option String
  pub base_sha : Option String
  pub worktree_status : WorktreeStatus
  pub stop_enforcement : Bool
  pub created_at : String
  pub updated_at : String

pub data TicketStatus : Type 0 where
  todo in_progress in_review done blocked cancelled : TicketStatus

pub record Ticket : Type 0 where
  pub id : String
  pub goal_id : String
  pub title : String
  pub brief : Option String
  pub acceptance : List String
  pub blocked_by : List String
  pub status : TicketStatus
  pub code_changed : Bool
  pub order : ℕ
  pub created_at : String
  pub updated_at : String

pub record Checkpoint : Type 0 where
  pub id : String
  pub goal_id : String
  pub ticket_id : Option String
  pub kind : CheckpointKind
  pub title : String
  pub notes : Option String
  pub decisions : List String
  pub next_action : Option String
  pub created_at : String

pub data EvidenceKind : Type 0 where
  verification commit other : EvidenceKind

pub data EvidenceOutcome : Type 0 where
  pass fail not_applicable : EvidenceOutcome

pub record EvidencePointer : Type 0 where
  pub id : String
  pub goal_id : String
  pub ticket_id : Option String
  pub kind : EvidenceKind
  pub submission_digest : Option String
  pub evidence_digest : Option String
  pub evidence_path : Option String
  pub remote_comment_id : Option String
  pub command : Option String
  pub outcome : Option EvidenceOutcome
  pub provenance : Dict String
  pub recorded_at : String

pub record LegacyArchive : Type 0 where
  pub state_path : String
  pub sha256 : String
  pub manifest_path : String
  pub archived_at : String

pub record TrackerCache : Type 0 where
  pub available : Option Bool
  pub stale : Option Bool
  pub outage : Option Bool
  pub last_verified_at : Option String
  pub digest : Option String

pub record SessionClaim : Type 0 where
  pub goal_id : String
  pub claimed_at : String
  pub last_seen_at : String

-- The state of version 3.
pub record State : Type 0 where
  pub created_at : String
  pub updated_at : String
  pub active_goal_id : Option String
  pub goals : Dict Goal
  pub local_tickets : Dict Ticket
  pub checkpoints : Dict Checkpoint
  pub evidence : Dict EvidencePointer
  pub wiki : WikiState
  pub tracker_cache : Option TrackerCache
  pub legacy_archive : Option LegacyArchive
  pub session_claims : Dict SessionClaim

abbrev pub empty_tracker_cache : TrackerCache
empty_tracker_cache = record {
  available = none;
  stale = none;
  outage = none;
  last_verified_at = none;
  digest = none;
}

unfoldable pub empty_state_v3 : String → State
empty_state_v3 now = record {
  created_at = now;
  updated_at = now;
  active_goal_id = none;
  goals = [];
  local_tickets = [];
  checkpoints = [];
  evidence = [];
  wiki = empty_wiki_state;
  tracker_cache = some empty_tracker_cache;
  legacy_archive = none;
  session_claims = [];
}
