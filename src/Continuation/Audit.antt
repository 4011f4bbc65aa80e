-- ===== src/Continuation/Audit.antt =====
-- src/continuation/audit.ts: audits of the finalizer, their store, and the audited finalizer. The
-- store is the list of its files in the order of their names; the projection that is rebuilt from
-- it is left out.
pub mod Records
use ycm_harness.Common.{
  String, Bool, true, false, not, ◌&&◌, ◌||◌, Option, none, some, List, [], ◌∷◌, ◌++◌, map, ◌==◌,
  any, find, if◌then◌else◌, truthy, Outcome, returns, throws, ◌>>=◌, ◌>>◌, require,
}
use ycm_harness.Continuation.Labels.{safe_label, unique, append_text}
use ycm_harness.Continuation.Policy.{PolicyInput, is_policy_trace, default_execution_policy}
use ycm_harness.Continuation.Policy.Evaluate.{Verdict, pass, fail, PolicyResult}
use ycm_harness.Continuation.Policy.Replay.{evaluated}
use ycm_harness.Continuation.Store.{Files, write, stored_record, read_after}
use ycm_harness.Continuation.Digests.{
  Reason, of_policy, audit_persistence_failed, ContinuationItem, FinalizerResult, AuditPolicy,
  AuditContent, AuditRecord, AuditCommitment, is_sha256, Runtime,
}
use ycm_harness.Continuation.Audit.Records.{
  AuditFault, AuditContext, is_pass, audited_policy, build_audit, audit_is_sound,
  unsupported_version, invalid_audit, invalid_stored_audit, storage_failed,
}

abbrev pub AuditFiles : Type 0
AuditFiles = Files AuditRecord

abbrev pub id_of_audit : AuditRecord → String
id_of_audit a = a.audit_id

stored_audit : Runtime → String → AuditRecord → Outcome AuditFault AuditRecord
unfolding audit_is_sound stored_record
stored_audit r name a = stored_record id_of_audit (audit_is_sound r) invalid_stored_audit name a

-- `readContinuationAudits(root)`
unfoldable pub read_audits : Runtime → AuditFiles → Outcome AuditFault (List AuditRecord)
unfolding read_after audit_is_sound
read_audits r files = read_after id_of_audit (audit_is_sound r) invalid_stored_audit [] files

-- What the disk does to a write: it may fail before or after the file is there.
pub data Disk : Type 0 where
  works fails_before_write fails_after_write : Disk

abbrev after_write : {A : Type 0} → Disk → Outcome AuditFault A → Outcome AuditFault A
after_write works o = o
after_write fails_before_write o = throws storage_failed
after_write fails_after_write o = throws storage_failed

-- The write of a new record, and what is read back.
write_and_read :
    Runtime → Disk → AuditRecord → AuditFiles → Outcome AuditFault AuditRecord × AuditFiles
unfolding stored_audit write
write_and_read r fails_before_write a files = (throws storage_failed, files)
write_and_read r disk a files =
    (after_write disk (stored_audit r a.record_sha256 a), write a.record_sha256 a files)

store_audit :
    Runtime
    → Disk
    → List AuditRecord
    → AuditRecord
    → AuditFiles
    → Outcome AuditFault AuditRecord × AuditFiles
unfolding write_and_read
store_audit r disk records a files = elim (find (λ b. b.audit_id == a.audit_id) records) [
  | some existing ↦ (after_write disk (returns existing), files)
  | none ↦ write_and_read r disk a files
]

abbrev store_built :
    Runtime
    → Disk
    → List AuditRecord
    → AuditFiles
    → Outcome AuditFault AuditRecord
    → Outcome AuditFault AuditRecord × AuditFiles
store_built r disk records files (returns a) = store_audit r disk records a files
store_built r disk records files (throws e) = (throws e, files)

abbrev persist_over :
    Runtime
    → Disk
    → Bool
    → String
    → String
    → FinalizerResult
    → AuditContext
    → PolicyResult
    → AuditFiles
    → Outcome AuditFault (List AuditRecord)
    → Outcome AuditFault AuditRecord × AuditFiles
persist_over r disk clean now response result context policy files (returns records) =
    store_built r disk records files (
      audited_policy r response policy context records >>= λ p.
      build_audit r clean response result p context now)
persist_over r disk clean now response result context policy files (throws e) = (throws e, files)

-- `persistContinuationAudit(responseText, result, context, deps, evaluatedPolicy)`
unfoldable pub persist_audit :
    Runtime
    → Disk
    → Bool
    → String
    → String
    → FinalizerResult
    → AuditContext
    → PolicyResult
    → AuditFiles
    → Outcome AuditFault AuditRecord × AuditFiles
unfolding store_audit audited_policy build_audit read_audits
persist_audit r disk clean now response result context policy files =
    persist_over r disk clean now response result context policy files (read_audits r files)

abbrev pub policy_input : Option PolicyInput → PolicyInput
policy_input none = default_execution_policy
policy_input (some i) = i

-- The result that the audit is of: the live validation with the policy.
unfoldable pub with_policy : FinalizerResult → PolicyResult → FinalizerResult
with_policy validation policy = record validation {
  status = if is_pass validation.status && is_pass policy.verdict then pass else fail;
  reasons = validation.reasons ++ map of_policy policy.reasons;
}

abbrev is_persistence_failure : Reason → Bool
is_persistence_failure audit_persistence_failed = true
is_persistence_failure _ = false

abbrev pub audited_result : FinalizerResult → Outcome AuditFault AuditRecord → FinalizerResult
audited_result result (returns a) = result
audited_result result (throws e) = record result {
  status = fail;
  reasons =
      if any is_persistence_failure result.reasons
      then result.reasons
      else result.reasons ++ audit_persistence_failed ∷ [];
}

-- `finalizeContinuationLedgerLiveAudited(responseText, context, deps)`, given the result of
-- `finalizeContinuationLedgerLive`.
unfoldable pub finalize_audited :
    Runtime
    → Disk
    → Bool
    → String
    → String
    → FinalizerResult
    → AuditContext
    → AuditFiles
    → FinalizerResult × AuditFiles
unfolding persist_audit with_policy
finalize_audited r disk clean now response validation context files =
    let policy = evaluated (some (policy_input context.execution_policy)) in
    let result = with_policy validation policy in
    let (stored, files') = persist_audit r disk clean now response result context policy files in
    (audited_result result stored, files')

-- `continuationAuditCommitment(audit)`, with `ContinuationAuditCommitmentSchema` on the digests.
unfoldable pub audit_commitment : Runtime → AuditRecord → Outcome AuditFault AuditCommitment
audit_commitment r a = elim a.content.policy [
  | none ↦ throws unsupported_version
  | some p ↦
      if is_sha256 a.content.response_sha256
      then returns (record {
        response_sha256 = a.content.response_sha256;
        items_sha256 = r.sha (r.json_items a.content.items);
        evidence_reference_ids_sha256 = r.sha (r.json_texts a.content.evidence_reference_ids);
        policy_sha256 = r.sha (r.json_policy p);
      })
      else throws invalid_audit
]
