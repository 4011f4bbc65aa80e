-- ===== src/Lifecycle/Enforced/Tests.antt =====
-- `goal complete` behind the closure gate, at a concrete input.
use ycm_harness.Common.{
  ◌≡◌, refl, true, some, lookup, assign, code_point_host, returns, ◌>>=◌, ◌>>◌, require, some_or,
  sort, trim, lower_is, insert, String-discrete,
}
use ycm_harness.Schema.Lean.{empty_state_v3, Goal}
use ycm_harness.Tickets.Machine.{goal_completion}
use ycm_harness.Tickets.Shared.{goal_for, active_lean_goal, ensure_ticket}
use ycm_harness.Tickets.Provider.{
  provider_for_state, provider_create, create_local, local_tickets, provider_set_status,
  set_status_local, provider_list,
}
use ycm_harness.Tickets.Evidence.{
  evidence_root, submission_digest, validate_knowledge, newest_submission, execute_verification,
  completion_evidence, fresh_completion_evidence,
}
use ycm_harness.Tickets.Commands.{ticket_create, ticket_submit, verify_run}
use ycm_harness.Goals.{assert_assurance, backend_of, goal_create, goal_complete, check_done}
use ycm_harness.Lifecycle.Reachable.{new_world}
use native.Mathlib.Decide.{ℕ_discrete}
use ycm_harness.Continuation.Labels.{
  safe_label, canonical_model_id, lower_char, unique_sorted, unique, join_nul, append_text,
  is_alphanumeric, is_label_char, label_rest, letter,
}
use ycm_harness.Continuation.Policy.{
  input_of, Stage-discrete, is_policy_input, normal_trace, is_attempt, is_model, is_invocation,
  is_policy_trace, normal_attempts, normal_model, normal_invocation,
}
use ycm_harness.Continuation.Policy.Evaluate.{
  trace_reasons, sufficient_from, attempt_reasons, stage_reasons, call_reasons, roster_reasons,
  min_rank, selection_reasons, model_reasons, invocation_reasons, invocations_reasons,
}
use ycm_harness.Continuation.Policy.Replay.{evaluated}
use ycm_harness.Continuation.Digests.{hex_of_length, protected_sha}
use ycm_harness.Continuation.Audit.{
  finalize_audited, read_audits, persist_audit, with_policy, audit_commitment,
}
use ycm_harness.Continuation.Audit.Records.{
  is_audit_policy, is_audit_content, audited_policy, audit_content, sealed_audit, build_audit,
  audit_is_sound,
}
use ycm_harness.Continuation.Shadow.{
  read_shadows, stored_shadow, persist_shadow, no_agent_route_is_valid, exact_with, is_exact_audit,
  exact_audit_record, with_reason, llm_outcome,
}
use ycm_harness.Continuation.Shadow.Records.{
  Items-discrete, PolicyReasons-discrete, Trace-discrete, Reasons-discrete, Reason-discrete,
  Verdict-discrete, refined, is_shadow_content, verdict_of_record, commitment_of, shadow_content,
  sealed_shadow, build_shadow, shadow_is_sound,
}
use ycm_harness.Continuation.Shadow.Observe.{
  finalize_scheduled_response, observation_verdict, enforcement_closure,
}
use ycm_harness.Continuation.Shadow.Observe.Observed.{outcome_of, observe}
use ycm_harness.Continuation.Closure.{
  load_closure_verdict, GateEnv, continuation_closure_gate, require_continuation_closure,
}
use ycm_harness.Continuation.Closure.Reasons.{Commitment-discrete, Id-discrete, judged}
use ycm_harness.Continuation.Closure.Scheduled.{access_to}
use ycm_harness.Continuation.Store.{write, stored_record, read_after}
use ycm_harness.Lifecycle.Tests.{w5, verified_Good, machine, w4}
use ycm_harness.Continuation.Closure.Tests.{flat, left, zeros}
use ycm_harness.Lifecycle.Enforced.{gated, closure_passes, EnvProof, goal_complete-EnvProof}

abbrev enforced : GateEnv
enforced = record {
  mode = some "enforce";
  proof_id = some zeros;
  parent_id = some "HAR-1";
  run_id = some "run-1";
  session_id = some "session-1";
}

gate_opens : closure_passes flat (λ root. access_to left) enforced "/p" goal_completion ≡ true
unfolding Items-discrete PolicyReasons-discrete Reason-discrete Reasons-discrete Stage-discrete
    String-discrete Trace-discrete Verdict-discrete append_text attempt_reasons audit_commitment
    audit_content audit_is_sound audited_policy build_audit build_shadow call_reasons
    canonical_model_id commitment_of continuation_closure_gate enforcement_closure evaluated
    exact_audit_record exact_with finalize_audited finalize_scheduled_response hex_of_length insert
    invocation_reasons invocations_reasons is_alphanumeric is_attempt is_audit_content
    is_audit_policy is_exact_audit is_invocation is_label_char is_model is_policy_input
    is_policy_trace is_shadow_content join_nul label_rest letter llm_outcome load_closure_verdict
    lower_char min_rank model_reasons no_agent_route_is_valid normal_attempts normal_invocation
    normal_model normal_trace observation_verdict observe outcome_of persist_audit persist_shadow
    protected_sha read_after read_audits read_shadows refined require require_continuation_closure
    roster_reasons safe_label sealed_audit sealed_shadow selection_reasons shadow_content
    shadow_is_sound sort stage_reasons stored_record stored_shadow sufficient_from trace_reasons
    trim unique unique_sorted verdict_of_record with_policy with_reason write ℕ_discrete ◌>>=◌ ◌>>◌
    closure_passes Commitment-discrete Id-discrete judged input_of
gate_opens = refl

completes :
    closure_passes flat (λ root. access_to left) enforced "/p" goal_completion ≡ true
    → goal_complete code_point_host
        (gated flat (λ root. access_to left) enforced machine)
        w4
        "g1"
        "2024-01-06"
      ≡ returns w5
unfolding active_lean_goal assert_assurance assign backend_of check_done completion_evidence
    create_local empty_state_v3 ensure_ticket evidence_root execute_verification
    fresh_completion_evidence goal_complete goal_create goal_for local_tickets lookup lower_is
    new_world newest_submission provider_create provider_for_state provider_list provider_set_status
    require set_status_local some_or sort submission_digest ticket_create ticket_submit trim
    validate_knowledge verify_run ◌>>=◌ ◌>>◌
completes h = rw h refl

goal_complete-EnvProof_example :
    (goal : Goal) × (lookup "g1" w4.state.goals ≡ some goal)
    × EnvProof flat (access_to left) enforced
goal_complete-EnvProof_example =
    goal_complete-EnvProof flat (λ root. access_to left) enforced code_point_host machine w4
      "2024-01-06" "g1" w5 refl verified_Good.locals (completes gate_opens)
