-- ===== src/Continuation/Digests.antt =====
-- src/continuation: the records of audits and shadows, the texts that stand for them, and their
-- digests.
use Prim.Native.Char.{Char, code, nul}
use Prim.Native.String as Text
use ycm_harness.Common.{ℕ, ◌-◌, ◌≡◌, String, Bool, true, ◌&&◌, ◌||◌, Option, List, leb, eqb}
use ycm_harness.Continuation.Labels.{append_text}
use ycm_harness.Continuation.Policy.{PolicyTrace}
use ycm_harness.Continuation.Policy.Evaluate.{Verdict, PolicyReason}

-- The reasons of finalizer, audit, shadow and gate. A reason of the ledger or of the live proof is
-- its text.
pub data Reason : Type 0 where
  of_ledger : String → Reason
  of_policy : PolicyReason → Reason
  audit_persistence_failed shadow_validator_failed llm_route_invalid shadow_audit_missing : Reason
  no_agent_route_invalid shadow_persistence_failed : Reason

pub record ContinuationItem : Type 0 where
  pub lane : String
  pub action : String
  pub disposition : String
  pub evidence : String
  pub expected_impact : String
  pub cost_class : String
  pub evidence_horizon : String
  pub ticket_id : Option String
  pub mutation_action : Option String
  pub monitoring_owner : Option String
  pub monitoring_reference : Option String
  pub monitoring_reason : Option String
  pub monitoring_check : Option String
  pub monitoring_exit : Option String

-- `ContinuationFinalizerResult`
pub record FinalizerResult : Type 0 where
  pub status : Verdict
  pub reasons : List Reason
  pub items : List ContinuationItem

-- `ContinuationAuditPolicy`
pub record AuditPolicy : Type 0 where
  pub trace : PolicyTrace
  pub verdict : Verdict
  pub reasons : List PolicyReason
  pub policy_failure_id : Option String
  pub correction_reservation_id : Option String

-- The content of an audit: of schema version 2 if it has a policy, else of version 1.
pub record AuditContent : Type 0 where
  pub response_sha256 : String
  pub items : List ContinuationItem
  pub evidence_reference_ids : List String
  pub verdict : Verdict
  pub reasons : List Reason
  pub policy : Option AuditPolicy
  pub surface : String
  pub mode : String
  pub parent_sha256 : String
  pub run_sha256 : String
  pub session_sha256 : String

pub record AuditRecord : Type 0 where
  pub content : AuditContent
  pub audit_id : String
  pub content_sha256 : String
  pub recorded_at : String
  pub record_sha256 : String

pub record AuditCommitment : Type 0 where
  pub response_sha256 : String
  pub items_sha256 : String
  pub evidence_reference_ids_sha256 : String
  pub policy_sha256 : String

pub data ShadowVersion : Type 0 where
  legacy current strict : ShadowVersion

pub data Routing : Type 0 where
  llm no_agent_route : Routing

pub record ShadowContent : Type 0 where
  pub version : ShadowVersion
  pub response_sha256 : String
  pub schedule_sha256 : String
  pub parent_sha256 : String
  pub run_sha256 : String
  pub session_sha256 : String
  pub routing : Routing
  pub would_block_verdict : Verdict
  pub reasons : List Reason
  pub audit_persisted : Bool
  pub audit_reference : Option String
  pub audit_commitment : Option AuditCommitment
  pub failure_id : Option String
  pub correction_reservation_id : Option String

pub record ShadowRecord : Type 0 where
  pub content : ShadowContent
  pub shadow_id : String
  pub content_sha256 : String
  pub recorded_at : String
  pub record_sha256 : String

-- `[0-9a-f]`
abbrev is_hex : Char → Bool
is_hex c = leb 48 (code c) && leb (code c) 57 || leb 97 (code c) && leb (code c) 102

unfoldable pub hex_of_length : ℕ → String → Bool
hex_of_length n Text.[] = eqb n 0
hex_of_length n (Text.◌∷◌ c s) = leb 1 n && (is_hex c && hex_of_length (n - 1) s)

-- `SHA256`: `/^[0-9a-f]{64}$/`
abbrev pub is_sha256 : String → Bool
is_sha256 s = hex_of_length 64 s

-- What the runtime supplies: SHA-256 in hexadecimal, and `JSON.stringify` on each kind of value
-- that is digested.
pub record Runtime : Type 0 where
  pub sha : String → String
  pub sha_hex : (s : String) → is_sha256 (sha s) ≡ true
  pub json_items : List ContinuationItem → String
  pub json_texts : List String → String
  pub json_policy : AuditPolicy → String
  pub json_audit_content : AuditContent → String
  pub json_audit : AuditContent → String → String → String → String
  pub json_shadow_content : ShadowContent → String
  pub json_shadow : ShadowContent → String → String → String → String
  pub json_policy_failure : String → String → String → String → List PolicyReason → String
  pub json_shadow_failure : String → String → String → String → String → Routing → String
  pub json_unpersisted : String → String → String → String → String → Routing → String

-- `a\0b`
abbrev nul_joined : String → String → String
nul_joined a b = append_text a (Text.◌∷◌ nul b)

-- `continuationShadowProtectedSha(field, value)`
unfoldable pub protected_sha : Runtime → String → String → String
protected_sha r field value = r.sha (append_text "continuation-shadow:v1:" (nul_joined field value))
