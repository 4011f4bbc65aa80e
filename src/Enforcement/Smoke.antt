-- ===== src/Enforcement/Smoke.antt =====
-- The pure tests of src/enforcement/smoke-verify.ts.
use ycm_harness.Common.{Bool, true, false, ◌&&◌, is_some, truthy}
use ycm_harness.Schema.Legacy.{SmokeEvidence, SmokeOutcome, SmokeRecordingMode, pass, executed}
use ycm_harness.Enforcement.StrictMode.{Env, strict_gates_enabled}

abbrev pub is_pass : SmokeOutcome → Bool
is_pass pass = true
is_pass _ = false

abbrev pub is_executed : SmokeRecordingMode → Bool
is_executed executed = true
is_executed _ = false

-- `smokeRequiresExecution(ev)`.
unfoldable pub smoke_requires_execution : Env → SmokeEvidence → Bool
smoke_requires_execution env ev = is_pass ev.outcome && strict_gates_enabled env

-- `smokeHasExecutionProof(ev)`.
unfoldable pub smoke_has_execution_proof : SmokeEvidence → Bool
smoke_has_execution_proof ev =
    is_executed ev.recording_mode && truthy ev.log_file && is_some ev.log_sha256
