-- ===== src/Continuation/Closure/Tests.antt =====
-- The scheduled finalizer and the closure gate at concrete inputs.
use native.Mathlib.Decide.{ℕ_discrete}
use ycm_harness.Common.{
  ◌≡◌, refl, String, true, none, some, [], returns, ◌>>=◌, ◌>>◌, require, sort, insert,
  String-discrete,
}
use ycm_harness.Continuation.Labels.{
  safe_label, canonical_model_id, lower_char, unique_sorted, unique, join_nul, append_text,
  is_alphanumeric, is_label_char, label_rest, letter,
}
use ycm_harness.Continuation.Policy.{
  Stage-discrete, is_policy_input, normal_trace, is_attempt, is_model, is_invocation,
  is_policy_trace, normal_attempts, normal_model, normal_invocation,
}
use ycm_harness.Continuation.Policy.Evaluate.{
  pass, trace_reasons, sufficient_at, sufficient_from, attempt_reasons, stage_reasons, call_reasons,
  roster_reasons, min_rank, selection_reasons, model_reasons, invocation_reasons,
  invocations_reasons,
}
use ycm_harness.Continuation.Policy.Replay.{evaluated}
use ycm_harness.Continuation.Policy.Tests.{cheap_run}
use ycm_harness.Continuation.Digests.{
  Reason, ShadowRecord, llm, hex_of_length, is_sha256, Runtime, protected_sha,
}
use ycm_harness.Continuation.Audit.{
  works, finalize_audited, read_audits, persist_audit, with_policy, audit_commitment,
}
use ycm_harness.Continuation.Audit.Records.{
  is_audit_policy, is_audit_content, audited_policy, audit_content, sealed_audit, build_audit,
  audit_is_sound,
}
use ycm_harness.Continuation.Shadow.{
  read_shadows, stored_shadow, persist_shadow, no_agent_route_is_valid, exact_with, is_exact_audit,
  exact_audit_record, with_reason, llm_outcome,
}
use ycm_harness.Continuation.Shadow.Records.{
  ScheduledContext, scheduled, CanonicalVerdict, Items-discrete, PolicyReasons-discrete,
  Trace-discrete, Reasons-discrete, Reason-discrete, Verdict-discrete, refined, is_shadow_content,
  verdict_of_record, commitment_of, shadow_content, sealed_shadow, build_shadow, shadow_is_sound,
}
use ycm_harness.Continuation.Shadow.Observe.{
  ScheduledResult, finalize_scheduled_response, observation_verdict, enforcement_closure,
}
use ycm_harness.Continuation.Shadow.Observe.Observed.{Stores, outcome_of, observe}
use ycm_harness.Continuation.Closure.{as_stored, load_closure_verdict}
use ycm_harness.Continuation.Closure.Reasons.{read_proof}
use ycm_harness.Continuation.Closure.Audited.{Authentic, load_closure_verdict-Authentic}
use ycm_harness.Continuation.Closure.Scheduled.{Wiring, live_deps, access_to, scheduled-accepted}
use ycm_harness.Continuation.Closure.Scheduled.Exact.{binding_of}
use ycm_harness.Continuation.Store.{write, stored_record, read_after}

abbrev pub zeros : String
zeros = "0000000000000000000000000000000000000000000000000000000000000000"

abbrev pub zero_sha : String → String
zero_sha s = zeros

pub zeros_hex : is_sha256 zeros ≡ true
unfolding hex_of_length
zeros_hex = refl

-- A runtime whose digests say nothing.
abbrev pub flat : Runtime
flat = record {
  sha = zero_sha;
  sha_hex = λ s. zeros_hex;
  json_items = λ l. "";
  json_texts = λ l. "";
  json_policy = λ p. "";
  json_audit_content = λ c. "";
  json_audit = λ c a b d. "";
  json_shadow_content = λ c. "";
  json_shadow = λ c a b d. "";
  json_policy_failure = λ a b c d l. "";
  json_shadow_failure = λ a b c d e g. "";
  json_unpersisted = λ a b c d e g. "";
}

abbrev pub context : ScheduledContext
context = record {
  parent_id = "HAR-1";
  run_id = "run-1";
  session_id = "session-1";
  schedule_id = "daily";
  trigger = scheduled;
  enabled = true;
  routing = llm;
  execution_policy = cheap_run;
}

abbrev pub wiring : Wiring
wiring = record {
  validation = record { status = pass; reasons = []; items = [] };
  audit_disk = works;
  audit_clean = true;
  lease = true;
  disk = works;
  clean = true;
  now = "2026-01-01T00:00:00.000Z";
}

abbrev pub empty : Stores
empty = record { audits = []; shadows = [] }

abbrev accepted : CanonicalVerdict Reason
accepted = record {
  verdict = pass;
  reasons = [];
  failure_id = none;
  correction_reservation_id = none;
  audit_reference = some zeros;
  proof_id = zeros;
}

abbrev delivered : ScheduledResult
delivered = record { response_text = "done"; closure = none; verdict = some accepted }

abbrev pub left : Stores
left =
    (finalize_scheduled_response flat (live_deps flat wiring "done" context) (some "enforce") "done"
      context empty).1

response_delivered :
    finalize_scheduled_response flat
      (live_deps flat wiring "done" context)
      (some "enforce")
      "done"
      context
      empty
    ≡ (returns delivered, left)
unfolding is_alphanumeric is_label_char label_rest safe_label letter lower_char canonical_model_id
    unique unique_sorted append_text join_nul Stage-discrete is_attempt is_model is_invocation
    is_policy_input is_policy_trace normal_attempts normal_model normal_invocation normal_trace
    sufficient_from attempt_reasons stage_reasons call_reasons roster_reasons min_rank
    selection_reasons model_reasons invocation_reasons invocations_reasons trace_reasons write
    stored_record read_after is_audit_policy is_audit_content audited_policy audit_content
    sealed_audit build_audit audit_is_sound read_audits persist_audit with_policy finalize_audited
    audit_commitment Items-discrete PolicyReasons-discrete Trace-discrete Reasons-discrete
    Reason-discrete Verdict-discrete refined is_shadow_content verdict_of_record commitment_of
    shadow_content sealed_shadow build_shadow shadow_is_sound stored_shadow read_shadows
    persist_shadow no_agent_route_is_valid exact_with is_exact_audit exact_audit_record with_reason
    llm_outcome outcome_of observe observation_verdict enforcement_closure
    finalize_scheduled_response hex_of_length protected_sha evaluated ◌>>=◌ ◌>>◌ require sort insert
    String-discrete ℕ_discrete
response_delivered = refl

model_sufficient : sufficient_at 4 (evaluated (some context.execution_policy)).trace.attempts ≡ true
unfolding evaluated is_alphanumeric is_label_char label_rest safe_label letter lower_char
    canonical_model_id unique unique_sorted append_text join_nul Stage-discrete is_attempt is_model
    is_invocation is_policy_input is_policy_trace normal_attempts normal_model normal_invocation
    normal_trace sort insert
model_sufficient = refl

nothing_stored : read_shadows flat empty.shadows ≡ returns []
unfolding read_shadows
nothing_stored = refl

scheduled-accepted_example :
    load_closure_verdict flat (access_to left) (binding_of "done" context zeros)
    ≡ returns (as_stored accepted)
scheduled-accepted_example =
    scheduled-accepted flat wiring (some "enforce") "done" context empty left delivered accepted []
      refl model_sufficient response_delivered refl refl nothing_stored (λ x i. elim i [ ])

load_closure_verdict-Authentic_example :
    (s : ShadowRecord) × (read_proof flat (access_to left) zeros ≡ returns s)
    × Authentic flat (access_to left) (binding_of "done" context zeros) s
load_closure_verdict-Authentic_example =
    load_closure_verdict-Authentic flat (access_to left) (binding_of "done" context zeros)
      (as_stored accepted) scheduled-accepted_example refl
