-- ===== src/Continuation/Policy/Evaluate.antt =====
-- src/continuation/cost-policy.ts: the evaluator of the execution policy.
use ycm_harness.Common.{
  ℕ, suc, String, Bool, true, false, not, ◌&&◌, ◌||◌, Option, none, some, List, [], ◌∷◌, ◌++◌, leb,
  ltb, eqb, ◌==◌, if◌then◌else◌, length, any, all, find, filter, head?, get_elem?, push_if,
  is_empty, is_some, truthy, sort, code_le, Outcome, returns, ◌>>=◌,
}
use ycm_harness.Continuation.Labels.{unique_sorted, join_nul}
use ycm_harness.Continuation.Policy.{
  Stage, no_agent, StageOutcome, sufficient, inapplicable, insufficient, skipped, invalid,
  StageAttempt, PolicyModel, ModelInvocation, PolicyInput, PolicyTrace, is_policy_input, ZodError,
  parse_trace, invalid_trace, normalize,
}

-- The texts of `reasons`.
pub data PolicyReason : Type 0 where
  policy_trace_invalid : PolicyReason
  stage_reason_missing : Stage → PolicyReason
  stage_evidence_missing : Stage → PolicyReason
  stage_observation_count_invalid : Stage → PolicyReason
  stage_invalid : Stage → PolicyReason
  stage_skipped : Stage → PolicyReason
  no_sufficient_stage : PolicyReason
  no_agent_model_call : PolicyReason
  pre_model_stage_model_call : Stage → PolicyReason
  model_stage_without_call : PolicyReason
  model_roster_invalid : String → PolicyReason
  auxiliary_judge_forbidden : ℕ → PolicyReason
  model_role_invalid : ℕ → PolicyReason
  recursive_agent_forbidden : ℕ → PolicyReason
  model_requirements_mismatch : ℕ → PolicyReason
  model_not_configured : ℕ → PolicyReason
  model_capability_mismatch : ℕ → PolicyReason
  model_not_cheapest_capable : ℕ → PolicyReason
  model_escalation_reason_missing : ℕ → PolicyReason
  model_tie_break_mismatch : ℕ → PolicyReason
  correction_budget_exceeded : PolicyReason

pub data Verdict : Type 0 where
  pass fail : Verdict

pub record PolicyResult : Type 0 where
  pub verdict : Verdict
  pub reasons : List PolicyReason
  pub trace : PolicyTrace

abbrev pub is_sufficient : StageOutcome → Bool
is_sufficient sufficient = true
is_sufficient _ = false

-- `outcome === "inapplicable" || outcome === "insufficient"`
abbrev pub is_passed_over : StageOutcome → Bool
is_passed_over inapplicable = true
is_passed_over insufficient = true
is_passed_over _ = false

abbrev pub is_invalid : StageOutcome → Bool
is_invalid invalid = true
is_invalid _ = false

abbrev pub is_skipped : StageOutcome → Bool
is_skipped skipped = true
is_skipped _ = false

-- `stages.findIndex(stage => stage.outcome === "sufficient")`, counted from `index`.
unfoldable pub sufficient_from : ℕ → List StageAttempt → Option ℕ
sufficient_from index [] = none
sufficient_from index (a ∷ rest) =
    if is_sufficient a.outcome then some index else sufficient_from (suc index) rest

-- `count` is absent or zero.
abbrev pub no_count : Option ℕ → Bool
no_count none = true
no_count (some n) = eqb n 0

-- `index < sufficientIndex`, `index > sufficientIndex` for an index that was found.
abbrev pub before : ℕ → Option ℕ → Bool
before index none = false
before index (some k) = ltb index k

abbrev pub after : ℕ → Option ℕ → Bool
after index none = false
after index (some k) = ltb k index

-- `index < attemptedBoundary`, where the boundary is `length` without a sufficient stage.
abbrev pub within : ℕ → ℕ → Option ℕ → Bool
within index length none = ltb index length
within index length (some k) = ltb index k

-- What one turn of the loop over the stages adds.
unfoldable pub attempt_reasons : ℕ → Option ℕ → ℕ → StageAttempt → List PolicyReason
attempt_reasons count found index a =
    push_if (is_passed_over a.outcome && not (truthy a.reason)) (stage_reason_missing a.stage)
    ++ ((if within index count found && is_passed_over a.outcome
          then push_if (not (truthy a.evidence_reference)) (stage_evidence_missing a.stage)
            ++ push_if (no_count a.observation_count) (stage_observation_count_invalid a.stage)
          else [])
        ++ (if is_invalid a.outcome
            then stage_invalid a.stage ∷ []
            else if before index found && is_skipped a.outcome
            then stage_skipped a.stage ∷ []
            else push_if (after index found && not (is_skipped a.outcome)) (stage_invalid a.stage)))

unfoldable pub stage_reasons : ℕ → Option ℕ → ℕ → List StageAttempt → List PolicyReason
unfolding attempt_reasons
stage_reasons count found index [] = []
stage_reasons count found index (a ∷ rest) =
    attempt_reasons count found index a ++ stage_reasons count found (suc index) rest

-- `sufficientIndex >= 0 && sufficientIndex < 4`
abbrev pub before_model : Option ℕ → Bool
before_model none = false
before_model (some k) = ltb k 4

abbrev pre_model_reason : Stage → PolicyReason
pre_model_reason no_agent = no_agent_model_call
pre_model_reason stage = pre_model_stage_model_call stage

abbrev pub pre_model_call : Option StageAttempt → List PolicyReason
pre_model_call none = []
pre_model_call (some a) = pre_model_reason a.stage ∷ []

abbrev pub attempt_at : Option ℕ → List StageAttempt → Option StageAttempt
attempt_at none l = none
attempt_at (some k) l = get_elem? l k

abbrev pub sufficient_at : ℕ → List StageAttempt → Bool
sufficient_at k l = elim (get_elem? l k) [ none ↦ false | some a ↦ is_sufficient a.outcome ]

-- Whether the stage and the presence of model calls agree.
unfoldable pub call_reasons : Option ℕ → PolicyTrace → List PolicyReason
call_reasons found t =
    if before_model found && not (is_empty t.model_invocations)
    then pre_model_call (attempt_at found t.attempts)
    else push_if (sufficient_at 4 t.attempts && is_empty t.model_invocations)
        model_stage_without_call

-- `ids.has(id)`, for the ids seen so far.
abbrev pub seen : String → List String → Bool
seen id ids = any (λ s. s == id) ids

unfoldable pub roster_reasons : List String → List PolicyModel → List PolicyReason
roster_reasons ids [] = []
roster_reasons ids (m ∷ rest) =
    push_if (seen m.model_id ids) (model_roster_invalid m.model_id)
    ++ roster_reasons (m.model_id ∷ ids) rest

-- `hasCapabilities(model)`
abbrev pub has_capabilities : List String → PolicyModel → Bool
has_capabilities required m = all (λ capability. seen capability m.capabilities) required

-- `Math.min` of the ranks: infinite for none.
abbrev pub lesser : ℕ → Option ℕ → ℕ
lesser r none = r
lesser r (some k) = if leb r k then r else k

unfoldable pub min_rank : List PolicyModel → Option ℕ
min_rank [] = none
min_rank (m ∷ ms) = some (lesser m.cost_rank (min_rank ms))

-- `rank > least`
abbrev pub above : ℕ → Option ℕ → Bool
above rank none = false
above rank (some r) = ltb r rank

abbrev pub by_id : PolicyModel → PolicyModel → Bool
by_id a b = code_le a.model_id b.model_id

-- `deterministicTie && selected.model_id !== deterministicTie.model_id`
abbrev pub other_id : PolicyModel → Option PolicyModel → Bool
other_id selected none = false
other_id selected (some m) = not (selected.model_id == m.model_id)

-- What the loop over the invocations adds once a capable model was selected.
unfoldable pub selection_reasons :
    PolicyTrace → ℕ → ModelInvocation → PolicyModel → List PolicyReason
unfolding min_rank
selection_reasons t index i selected =
    let capable = filter (has_capabilities t.required_capabilities) t.model_roster in
    let tie = head? (sort by_id (filter (λ m. eqb m.cost_rank selected.cost_rank) capable)) in
    push_if (above selected.cost_rank (min_rank capable) && not (is_some i.escalation_reason))
      (model_not_cheapest_capable index)
    ++ (push_if
          (above selected.cost_rank (min_rank t.model_roster) && not (is_some i.escalation_reason))
          (model_escalation_reason_missing index)
        ++ push_if (other_id selected tie) (model_tie_break_mismatch index))

unfoldable pub model_reasons : PolicyTrace → ℕ → ModelInvocation → List PolicyReason
unfolding selection_reasons
model_reasons t index i = elim (find (λ m. m.model_id == i.model_id) t.model_roster) [
  | none ↦ model_not_configured index ∷ []
  | some selected ↦
      if has_capabilities t.required_capabilities selected
      then selection_reasons t index i selected
      else model_capability_mismatch index ∷ []
]

-- What one turn of the loop over the invocations adds.
unfoldable pub invocation_reasons : PolicyTrace → ℕ → ModelInvocation → List PolicyReason
unfolding model_reasons
invocation_reasons t index i =
    (if i.role == "judge" || i.role == "auxiliary_judge"
      then auxiliary_judge_forbidden index ∷ []
      else push_if (not (i.role == "executor") && not (i.role == "correction"))
          (model_role_invalid index))
    ++ (push_if i.recursive (recursive_agent_forbidden index)
        ++ (push_if
              (not (
                join_nul (unique_sorted i.required_capabilities)
                == join_nul t.required_capabilities))
              (model_requirements_mismatch index)
            ++ model_reasons t index i))

unfoldable pub invocations_reasons : PolicyTrace → ℕ → List ModelInvocation → List PolicyReason
unfolding invocation_reasons
invocations_reasons t index [] = []
invocations_reasons t index (i ∷ rest) =
    invocation_reasons t index i ++ invocations_reasons t (suc index) rest

-- Every reason against a normalised trace, in order.
unfoldable pub trace_reasons : PolicyTrace → List PolicyReason
unfolding stage_reasons sufficient_from call_reasons roster_reasons invocations_reasons
trace_reasons t =
    let found = sufficient_from 0 t.attempts in
    stage_reasons (length t.attempts) found 0 t.attempts
    ++ (push_if (not (is_some found)) no_sufficient_stage
        ++ (call_reasons found t
            ++ (roster_reasons [] t.model_roster
                ++ (invocations_reasons t 0 t.model_invocations
                    ++ push_if (ltb 1 t.correction_count) correction_budget_exceeded))))

-- `ExecutionPolicyResultSchema.parse(result)`
abbrev pub parse_result : PolicyResult → Outcome ZodError PolicyResult
parse_result r = parse_trace r.trace >>= λ t. returns (record r { trace = t })

-- The part of the evaluator behind `safeParse`.
unfoldable pub evaluate_parsed : PolicyInput → Outcome ZodError PolicyResult
unfolding normalize trace_reasons
evaluate_parsed input = do
  t ← normalize input
  let reasons = trace_reasons t
  parse_result
      (record { verdict = if is_empty reasons then pass else fail; reasons = reasons; trace = t })

abbrev pub refused : PolicyResult
refused = record { verdict = fail; reasons = policy_trace_invalid ∷ []; trace = invalid_trace }

-- `evaluateExecutionPolicy(raw)`. `none` is a value that has not the shape of the schema.
unfoldable pub evaluate_execution_policy : Option PolicyInput → Outcome ZodError PolicyResult
unfolding evaluate_parsed is_policy_input invalid_trace
evaluate_execution_policy none = returns refused
evaluate_execution_policy (some input) =
    if is_policy_input input then evaluate_parsed input else returns refused
