-- ===== src/Lifecycle/Enforced.antt =====
-- The commands of src/cli/commands with the closure gate of src/continuation/closure.ts behind them,
-- in the enforcing mode.
mod Tests
use ycm_harness.Common.{
  ◌≡◌, refl, ap, ◌⊎◌, inl, inr, String, Bool, true, false, Option, none, some, List, arith, Dict,
  lookup, Host, Bool-cases, Option-cases, opt_eq, Outcome, returns, throws, ◌>>=◌, is_some,
}
use ycm_harness.Schema.Lean.{Goal, Ticket, GoalStatus}
use ycm_harness.Tickets.Machine.{
  Machine, Surface, World, Error, goal_completion, verification_completion,
}
use ycm_harness.Tickets.Evidence.{evidence_root}
use ycm_harness.Tickets.Commands.{verify_run}
use ycm_harness.Goals.{goal_complete}
use ycm_harness.Lifecycle.{AllLocal}
use ycm_harness.Lifecycle.TicketCommands.{Good}
use ycm_harness.Lifecycle.Verify.{verify_run-Checked}
use ycm_harness.Lifecycle.GoalCompletion.{goal_complete-Closed}
use ycm_harness.Continuation.Policy.Evaluate.{Verdict, pass, fail}
use ycm_harness.Continuation.Digests.{Runtime, ShadowRecord, Reason}
use ycm_harness.Continuation.Audit.Records.{is_pass}
use ycm_harness.Continuation.Shadow.Records.{CanonicalVerdict, ShadowFault}
use ycm_harness.Continuation.Closure.{
  GateEnv, ClosureError, env_value, checked, required, load_closure_verdict,
  continuation_closure_gate, require_continuation_closure,
}
use ycm_harness.Continuation.Closure.Reasons.{
  Access, ProofBinding, ClosureReason, read_proof, failure,
}
use ycm_harness.Continuation.Closure.Audited.{Authentic, load_closure_verdict-Authentic}

abbrev returned {ℓ κ} : {E : Type κ} {A : Type ℓ} → Outcome E A → Bool
returned (returns a) = true
returned (throws e) = false

-- `await requireContinuationClosure({ root, surface })`
unfoldable pub closure_passes : Runtime → (String → Access) → GateEnv → String → Surface → Bool
unfolding require_continuation_closure
closure_passes r stores env root surface =
    returned (require_continuation_closure r (stores root) env)

-- A machine whose closure gate is the one of the source, over the stores of each root.
abbrev pub gated : Runtime → (String → Access) → GateEnv → Machine → Machine
gated r stores env m = record m { closure_passes = closure_passes r stores env }

abbrev pub env_binding : String → String → String → String → ProofBinding
env_binding proof parent run session = record {
  proof_id = proof;
  parent_id = parent;
  run_id = run;
  session_id = session;
  response_text = none;
  audit_reference = none;
}

-- The environment names an authentic proof of the stores.
pub record EnvProof (r : Runtime) (access : Access) (env : GateEnv) : Type 0 where
  pub proof : String
  pub parent : String
  pub run : String
  pub session : String
  pub proof_given : env_value env.proof_id ≡ some proof
  pub parent_given : env_value env.parent_id ≡ some parent
  pub run_given : env_value env.run_id ≡ some run
  pub session_given : env_value env.session_id ≡ some session
  pub stored : ShadowRecord
  pub read : read_proof r access proof ≡ returns stored
  pub authentic : Authentic r access (env_binding proof parent run session) stored

is_pass-pass : (v : Verdict) → is_pass v ≡ true → v ≡ pass
is_pass-pass v h = ground arith

failed_passes :
    (id : String) (reasons : List ClosureReason) (o : Option (CanonicalVerdict Reason))
    (v : CanonicalVerdict ClosureReason)
    → ◌≡◌ {A = Outcome ShadowFault (CanonicalVerdict ClosureReason)}
        (returns (failure id reasons o))
        (returns v)
    → v.verdict ≡ pass
    → ⊥
unfolding failure
failed_passes id reasons none v e passed = cc
failed_passes id reasons (some b) v e passed = cc

module _ (r : Runtime) (access : Access) (env : GateEnv) where
  checked-Proof :
      (proof parent run session : Option String)
      → env_value env.proof_id ≡ proof
      → env_value env.parent_id ≡ parent
      → env_value env.run_id ≡ run
      → env_value env.session_id ≡ session
      → (v : CanonicalVerdict ClosureReason) → checked r access proof parent run session ≡ returns v
      → v.verdict ≡ pass
      → EnvProof r access env
  checked-Proof (some p) (some q) (some u) (some s) hp hq hu hs v e passed =
      let (stored, read, authentic) = load_closure_verdict-Authentic r access _ v e passed in
      record {
        proof = p;
        parent = q;
        run = u;
        session = s;
        proof_given = hp;
        parent_given = hq;
        run_given = hu;
        session_given = hs;
        stored = stored;
        read = read;
        authentic = authentic;
      }
  checked-Proof none q u s hp hq hu hs v e passed = absurd (failed_passes _ _ _ v e passed)
  checked-Proof (some p) none u s hp hq hu hs v e passed = absurd (failed_passes _ _ _ v e passed)
  checked-Proof (some p) (some q) none s hp hq hu hs v e passed =
      absurd (failed_passes _ _ _ v e passed)
  checked-Proof (some p) (some q) (some u) none hp hq hu hs v e passed =
      absurd (failed_passes _ _ _ v e passed)

  -- In the enforcing mode, the gate lets a command go on only with an authentic proof.
  pub require-Proof :
      opt_eq env.mode "enforce" ≡ true
      → returned (require_continuation_closure r access env) ≡ true
      → EnvProof r access env
  unfolding require_continuation_closure continuation_closure_gate ◌>>=◌
  require-Proof enforcing h = go _ refl (rw enforcing at h)
    where
      go :
          (o : Outcome ShadowFault (CanonicalVerdict ClosureReason))
          → checked r access
              (env_value env.proof_id)
              (env_value env.parent_id)
              (env_value env.run_id)
              (env_value env.session_id)
            ≡ o
          → returned (required (o >>= λ v. returns (some v))) ≡ true
          → EnvProof r access env
      go (throws e) same h = cc
      go (returns v) same h = elim (Bool-cases (is_pass v.verdict)) [
        | inl passed ↦
            checked-Proof _ _ _ _ refl refl refl refl v same (is_pass-pass v.verdict passed)
        | inr failed ↦ let e = rw failed at h in cc
      ]

module _ (r : Runtime) (stores : String → Access) (env : GateEnv) (host : Host) (m : Machine)
    (w : World) (now : String) where
  -- In the enforcing mode, on local goals, if `goal complete` returns then the environment names an
  -- authentic proof of the stores of the goal's root, of a passing scheduled response.
  pub goal_complete-EnvProof :
      (id : String) (w' : World)
      → opt_eq env.mode "enforce" ≡ true
      → AllLocal w.state.goals
      → goal_complete host (gated r stores env m) w id now ≡ returns w'
      → (goal : Goal) × (lookup id w.state.goals ≡ some goal)
        × EnvProof r (stores (evidence_root (gated r stores env m) goal)) env
  unfolding closure_passes
  goal_complete-EnvProof id w' enforcing locals h =
      let (goal, found, tickets, passes, left, inactive) =
        goal_complete-Closed host (gated r stores env m) w now id w' locals h in
      (goal, found, require-Proof r _ env enforcing passes)

  -- In the enforcing mode, from files that the commands keep and with a new evidence identifier, if
  -- `verify run` returns then the environment names an authentic proof of the stores of the root of
  -- the ticket's goal, of a passing scheduled response.
  pub verify_run-EnvProof :
      (id command i v : String) (knowledge : List String) (evidence_id : String)
      (res : World × Option Error)
      → opt_eq env.mode "enforce" ≡ true
      → lookup evidence_id w.state.evidence ≡ none
      → Good w
      → verify_run host (gated r stores env m) w id command i v knowledge evidence_id now
        ≡ returns res
      → (t : Ticket) × (goal : Goal) × (lookup id w.state.local_tickets ≡ some t)
        × (lookup t.goal_id w.state.goals ≡ some goal)
        × EnvProof r (stores (evidence_root (gated r stores env m) goal)) env
  unfolding closure_passes
  verify_run-EnvProof id command i v knowledge evidence_id res enforcing fresh good h =
      let (
        t, goal, digest, run, stored, found, submitted, current, passes, distinct, ran, error, left,
      ) =
        verify_run-Checked host (gated r stores env m) w now id command i v knowledge evidence_id
          res fresh good h in
      (t, goal, stored, found, require-Proof r _ env enforcing passes)
