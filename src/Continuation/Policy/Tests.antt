-- ===== src/Continuation/Policy/Tests.antt =====
-- The execution policy at concrete inputs.
use ycm_harness.Common.{
  ◌≡◌, refl, ◌↔◌, String, true, false, Option, none, some, List, [], ◌∷◌, returns,
}
use ycm_harness.Continuation.Labels.{
  is_alphanumeric, is_label_char, label_rest, safe_label, canonical_model_id, unique_sorted,
  join_nul,
}
use ycm_harness.Continuation.Policy.{
  Stage, Stage-discrete, no_agent, script, targeted_read, reuse_reference, model, sufficient,
  insufficient, StageAttempt, PolicyModel, ModelInvocation, PolicyInput, Escalation, risk,
  is_attempt, is_model, is_invocation, is_policy_input, default_execution_policy, normal_trace,
  input_of,
}
use ycm_harness.Continuation.Policy.Evaluate.{
  pass, PolicyResult, trace_reasons, evaluate_execution_policy, model_escalation_reason_missing,
  model_not_cheapest_capable, refused,
}
use ycm_harness.Continuation.Policy.Replay.{
  result_of, evaluate_replay, evaluate_returns, evaluated, evaluate_total,
}
use ycm_harness.Continuation.Policy.Admissible.{Admissible, evaluate_pass_iff}

abbrev pub tried : Stage → StageAttempt
tried s = record {
  stage = s;
  outcome = insufficient;
  reason = some "no-match";
  evidence_reference = some "log:1";
  observation_count = some 2;
}

abbrev pub enough : StageAttempt
enough = record {
  stage = model;
  outcome = sufficient;
  reason = none;
  evidence_reference = none;
  observation_count = none;
}

abbrev pub call : String → Option Escalation → ModelInvocation
call id why = record {
  role = "executor";
  model_id = id;
  required_capabilities = "write" ∷ "read" ∷ [];
  recursive = false;
  escalation_reason = why;
}

abbrev pub roster : List PolicyModel
roster =
    record { model_id = "Large"; tier = "big"; cost_rank = 2; capabilities = "read" ∷ "write" ∷ [] }
    ∷ record {
      model_id = "small";
      tier = "mini";
      cost_rank = 1;
      capabilities = "write" ∷ "read" ∷ "write" ∷ [];
    }
    ∷ []

abbrev pub run : ModelInvocation → PolicyInput
run i = record {
  attempts =
      tried no_agent ∷ tried script ∷ tried targeted_read ∷ tried reuse_reference ∷ enough ∷ [];
  required_capabilities = "read" ∷ "write" ∷ "read" ∷ [];
  model_roster = roster;
  model_invocations = i ∷ [];
}

abbrev pub cheap_run : PolicyInput
cheap_run = run (call "SMALL" none)

cheap_run_ok : is_policy_input cheap_run ≡ true
unfolding is_policy_input is_attempt is_model is_invocation safe_label label_rest is_label_char
    is_alphanumeric
cheap_run_ok = refl

cheap_run_quiet : trace_reasons (normal_trace cheap_run) ≡ []
unfolding trace_reasons normal_trace unique_sorted canonical_model_id join_nul Stage-discrete
cheap_run_quiet = refl

dear_run_reasons :
    trace_reasons (normal_trace (run (call "LARGE" none)))
    ≡ model_not_cheapest_capable 0 ∷ model_escalation_reason_missing 0 ∷ []
unfolding trace_reasons normal_trace unique_sorted canonical_model_id join_nul Stage-discrete
dear_run_reasons = refl

escalated_run_quiet : trace_reasons (normal_trace (run (call "large" (some risk)))) ≡ []
unfolding trace_reasons normal_trace unique_sorted canonical_model_id join_nul Stage-discrete
escalated_run_quiet = refl

default_quiet : trace_reasons (normal_trace default_execution_policy) ≡ []
unfolding trace_reasons normal_trace unique_sorted canonical_model_id Stage-discrete
    default_execution_policy
default_quiet = refl

unreadable_refused : evaluate_execution_policy none ≡ returns refused
unfolding evaluate_execution_policy
unreadable_refused = refl

evaluate_pass_iff_example :
    ((result_of (normal_trace cheap_run)).verdict ≡ pass)
    ↔ ((is_policy_input cheap_run ≡ true) × Admissible (normal_trace cheap_run))
evaluate_pass_iff_example =
    evaluate_pass_iff cheap_run (result_of (normal_trace cheap_run))
      (evaluate_returns cheap_run cheap_run_ok)

cheap_run-Admissible : Admissible (normal_trace cheap_run)
cheap_run-Admissible = (evaluate_pass_iff_example.0 (rw cheap_run_quiet refl)).1

evaluate_replay_example :
    (r : PolicyResult) × (evaluate_execution_policy (some cheap_run) ≡ returns r)
    × (evaluate_execution_policy (some (input_of r.trace)) ≡ returns r)
evaluate_replay_example = evaluate_replay cheap_run cheap_run_ok

evaluate_total_example :
    evaluate_execution_policy (some cheap_run) ≡ returns (evaluated (some cheap_run))
evaluate_total_example = evaluate_total (some cheap_run)
