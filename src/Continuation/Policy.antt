-- ===== src/Continuation/Policy.antt =====
-- src/continuation/cost-policy.ts: the data of the execution policy, its schemas as tests, and the
-- normal form of a trace.
pub mod Evaluate
mod Schema
pub mod Replay
pub mod Ladder
mod Models
mod Selection
pub mod Admissible
pub mod Tests
use ycm_harness.Common.{
  ℕ, ◌+◌, ◌≡◌, String, Bool, true, false, ◌&&◌, ◌||◌, Option, none, some, List, [], ◌∷◌, map, leb,
  ltb, eqb, ◌==◌, if◌then◌else◌, length, all, filter, test, sort, insert, code_le, Outcome, returns,
  throws,
}
use ycm_harness.Continuation.Labels.{safe_label, canonical_model_id, unique_sorted}

pub data Stage : Type 0 where
  no_agent script targeted_read reuse_reference model : Stage

unfoldable pub Stage-discrete : Discrete Stage
Stage-discrete = hlevel

-- `STAGES`
abbrev pub stages : List Stage
stages = no_agent ∷ script ∷ targeted_read ∷ reuse_reference ∷ model ∷ []

pub data StageOutcome : Type 0 where
  sufficient inapplicable insufficient skipped invalid : StageOutcome

pub record StageAttempt : Type 0 where
  pub stage : Stage
  pub outcome : StageOutcome
  pub reason : Option String
  pub evidence_reference : Option String
  pub observation_count : Option ℕ

pub record PolicyModel : Type 0 where
  pub model_id : String
  pub tier : String
  pub cost_rank : ℕ
  pub capabilities : List String

pub data Escalation : Type 0 where
  risk ambiguity complexity : Escalation

pub record ModelInvocation : Type 0 where
  pub role : String
  pub model_id : String
  pub required_capabilities : List String
  pub recursive : Bool
  pub escalation_reason : Option Escalation

pub record PolicyInput : Type 0 where
  pub attempts : List StageAttempt
  pub required_capabilities : List String
  pub model_roster : List PolicyModel
  pub model_invocations : List ModelInvocation

pub record PolicyTrace : Type 0 where
  pub attempts : List StageAttempt
  pub required_capabilities : List String
  pub model_roster : List PolicyModel
  pub model_invocations : List ModelInvocation
  pub correction_count : ℕ

-- `SAFE_LABEL` on an optional field.
abbrev pub optional_label : Option String → Bool
optional_label none = true
optional_label (some s) = safe_label s

-- The schemas' tests past the shape of a value.
unfoldable pub is_attempt : StageAttempt → Bool
is_attempt a = optional_label a.reason && optional_label a.evidence_reference

unfoldable pub is_model : PolicyModel → Bool
is_model m = safe_label m.model_id && safe_label m.tier && all safe_label m.capabilities

unfoldable pub is_invocation : ModelInvocation → Bool
is_invocation i =
    safe_label i.role && safe_label i.model_id && all safe_label i.required_capabilities

abbrev pub are_fields :
    List StageAttempt → List String → List PolicyModel → List ModelInvocation → Bool
are_fields attempts required roster invocations =
    (eqb (length attempts) 5 && all is_attempt attempts)
    && all safe_label required
    && all is_model roster
    && all is_invocation invocations

-- `ExecutionPolicyInputSchema` on a value of its shape.
unfoldable pub is_policy_input : PolicyInput → Bool
is_policy_input i = are_fields i.attempts i.required_capabilities i.model_roster i.model_invocations

-- `NormalizedExecutionPolicyTraceSchema` on a value of its shape.
unfoldable pub is_policy_trace : PolicyTrace → Bool
is_policy_trace t = are_fields t.attempts t.required_capabilities t.model_roster t.model_invocations

pub data ZodError : Type 0 where
  trace_refused : ZodError

-- `NormalizedExecutionPolicyTraceSchema.parse(trace)`
unfoldable pub parse_trace : PolicyTrace → Outcome ZodError PolicyTrace
unfolding is_policy_trace
parse_trace t = if is_policy_trace t then returns t else throws trace_refused

-- `defaultExecutionPolicy()`
default_attempts : List Stage → StageOutcome → List StageAttempt
default_attempts [] o = []
default_attempts (s ∷ ss) o =
    record {
      stage = s;
      outcome = o;
      reason = none;
      evidence_reference = none;
      observation_count = none;
    }
    ∷ default_attempts ss skipped

pub default_execution_policy : PolicyInput
unfolding default_attempts
default_execution_policy = record {
  attempts = default_attempts stages sufficient;
  required_capabilities = [];
  model_roster = [];
  model_invocations = [];
}

-- An attempt that the evaluator writes itself.
abbrev pub invalid_attempt : String → Stage → StageAttempt
invalid_attempt why s = record {
  stage = s;
  outcome = invalid;
  reason = some why;
  evidence_reference = none;
  observation_count = none;
}

-- `invalidTrace()`
pub invalid_trace : PolicyTrace
invalid_trace = record {
  attempts = map (invalid_attempt "invalid_policy_input") stages;
  required_capabilities = [];
  model_roster = [];
  model_invocations = [];
  correction_count = 0;
}

-- `input.stages[index]`, kept where it is an attempt at the stage of that place.
unfoldable pub normal_attempts : List Stage → List StageAttempt → List StageAttempt
normal_attempts (s ∷ ss) (a ∷ as') =
    (if test (Stage-discrete a.stage s) then a else invalid_attempt "stage_identity_mismatch" s)
    ∷ normal_attempts ss as'
normal_attempts _ _ = []

unfoldable pub normal_model : PolicyModel → PolicyModel
normal_model m = record m {
  model_id = canonical_model_id m.model_id;
  capabilities = unique_sorted m.capabilities;
}

-- The comparator of the roster is not positive.
abbrev pub cheaper : PolicyModel → PolicyModel → Bool
cheaper a b =
    ltb a.cost_rank b.cost_rank || eqb a.cost_rank b.cost_rank && code_le a.model_id b.model_id

unfoldable pub normal_invocation : ModelInvocation → ModelInvocation
normal_invocation i = record i {
  model_id = canonical_model_id i.model_id;
  required_capabilities = unique_sorted i.required_capabilities;
}

-- `invocation.role === "correction"`
abbrev pub is_correction : ModelInvocation → Bool
is_correction i = i.role == "correction"

-- The object that `normalize` builds.
unfoldable pub normal_trace : PolicyInput → PolicyTrace
unfolding normal_attempts normal_model normal_invocation
normal_trace input = record {
  attempts = normal_attempts stages input.attempts;
  required_capabilities = unique_sorted input.required_capabilities;
  model_roster = sort cheaper (map normal_model input.model_roster);
  model_invocations = map normal_invocation input.model_invocations;
  correction_count = length (filter is_correction input.model_invocations);
}

-- `normalize(input)`
unfoldable pub normalize : PolicyInput → Outcome ZodError PolicyTrace
unfolding normal_trace parse_trace
normalize input = parse_trace (normal_trace input)

-- The input that src/continuation/closure.ts builds from the trace of an audit.
unfoldable pub input_of : PolicyTrace → PolicyInput
input_of t = record {
  attempts = t.attempts;
  required_capabilities = t.required_capabilities;
  model_roster = t.model_roster;
  model_invocations = t.model_invocations;
}
