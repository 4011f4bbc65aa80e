-- ===== src/Lib.antt =====
-- ycm-harness keeps the work of coding agents in order: goals, tickets, evidence, phases and reviews
-- are records in one state file, and commands change them only when their gates allow it. This
-- library models the TypeScript sources under src/ of the repository.
--
-- Schema: src/schema. The records of the V2 state (Schema.Legacy, Schema.Reviews, Schema.Wiki) and of
-- the lean V3 state (Schema.Lean), field by field. An enumeration is a data type, an optional field an
-- Option, a timestamp the text that is stored, and a Record<string, T> the list of its entries in
-- order of insertion (keys that read as array indices are not told apart).
--
-- Workflow.Transitions: src/workflow/transitions.ts, and nextPhaseKind of src/workflow/next-action.ts.
-- Workflow.NextAction: the rest of src/workflow/next-action.ts.
-- Workflow.Records and Workflow.Gates: src/workflow/phase-gates.ts, evaluatePhaseExitGate with its
-- queries, and commitRecordsForGoal of src/state/commits.ts. What is missing is a list of
-- constructors, one for each text of the source.
--
-- Enforcement: src/enforcement/strict-mode.ts, the pure tests of src/enforcement/smoke-verify.ts, and
-- src/enforcement/review-provenance.ts. The environment variables are a record Env.
--
-- Review: src/review/policy.ts. A score is a decimal number, units / 10 ^ digits, so that the threshold
-- 82.3 is exact.
--
-- Tickets: src/tickets/evidence.ts (Tickets.Evidence), the local provider and the choice of a provider
-- of src/tickets/provider.ts (Tickets.Provider), and the commands of src/cli/commands/ticket.ts and
-- src/cli/commands/verify.ts (Tickets.Shared, Tickets.Commands). Goals: src/cli/commands/goal.ts. A
-- command is a function from the stored World (the state and the event log) to a new World or an
-- Error; a command that throws writes nothing, except that `verify run` reports a failed command
-- after its write. A command reads the clock once, and the identifiers that it draws are arguments.
-- The written states are those that the schema accepts.
--
-- Lifecycle: the ticket, verify and goal commands that change the state of a local goal, as a step
-- relation on worlds, and an invariant of the stored state. Each command of a run has a Machine of its
-- own: what git, the shell, the files and the closure gate answer at that time. A step draws new
-- evidence identifiers and creates local goals only. Lifecycle.Enforced puts the gate of src/continuation/closure.ts behind the
-- commands, with the stores of each root as a function.
--
-- Migration: src/migration/v2-to-v3.ts, migrateV2ToV3 on a parsed V2 state; Migration.Carried is about tickets and Migration.Goals about goals. The cut of a commit's
-- summary at 500 UTF-16 units leaves out a character that it would split.
--
-- Sessions: src/state/session-claims.ts. The functions of node:path are parameters.
--
-- Continuation: src/continuation. Continuation.Labels and Continuation.Policy are cost-policy.ts, the
-- ladder of execution stages, its schemas, normal form and evaluator (Policy.Evaluate); a raw value is
-- none when it does not have the shape of the schema. Continuation.Digests has the records and the
-- digests, with SHA-256 and JSON.stringify as a record Runtime of functions: two texts that
-- JSON.stringify makes are equal when the values are, so a comparison of such texts is one of values.
-- Continuation.Store is the directory of records that audit.ts and shadow.ts both read file by file;
-- a name is the digest, and the files that end in .tmp are left out. Continuation.Audit is audit.ts,
-- Continuation.Shadow with Shadow.Observe is shadow.ts, and Continuation.Closure is closure.ts; the
-- records and their schemas are in Audit.Records and Shadow.Records, what a proof is refused for in
-- Closure.Reasons, and the observation of a response in Shadow.Observe.Observed. A write
-- takes a Disk that says whether it works and what it leaves behind; the scan for secrets, the checks
-- on links and the projection files are part of that. The result of the ledger's parser (finalizer.ts)
-- is an argument.
--
-- Autonomy.Watchdog: src/autonomy/missed-slot-watchdog.ts, the records and due slots, the adapters
-- over files (Watchdog.Files), the state and the tick (Watchdog.Tick, Tick.Sightings), and runs of them
-- (Watchdog.Reachable). A directory is the entries of its files by name; a tick is one step under its
-- lease. The record Platform has the time zone, the day before a date, the formats of texts that the
-- schemas ask for, the digest in a new issue's name, and where path.join puts the file of a receipt:
-- the source joins the identifier unchecked, so the file may lie outside the directory of receipts
-- (Files.Written). A run takes only receipts that are written inside it.
--
-- Hooks.Stop: src/hooks/stop.ts, buildStopHookOutput on a parsed JSON value (Hooks.Json), whose
-- objects have one entry per key and whose numbers are natural. A block is the record of what its
-- texts are made of; Stop.Asked, Stop.Waiting and Stop.Attention say what its tests mean. Stop.Dispatch is dispatchStopHook, with the functions of src/autonomy that persist,
-- ensure and record follow-ups, and the parser of the message, as a record of functions.
--
-- Common holds the shared helpers. Text.Host is what the JavaScript runtime supplies: localeCompare as
-- a total and transitive comparison, and Date.parse. `toLowerCase` is modelled on ASCII, which is exact
-- for the words that the source compares with. Every loop is structural recursion, so no fuel is used.
--
-- Parameters: git, SHA-256, the shell, path.resolve, the closure gate and the answers of the GitHub
-- and Multica providers are fields of Tickets.Machine. Not modelled: the remote providers themselves,
-- the other files of src/autonomy, src/continuation/finalizer.ts, the other files of src/hooks, the files of
-- src/migration, src/wiki, src/git, the files of src/state and the remaining commands of src/cli,
-- which read and write files, run processes or print.
pub mod Autonomy
pub mod Common
pub mod Continuation
pub mod Enforcement
pub mod Goals
pub mod Hooks
pub mod Lifecycle
pub mod Migration
pub mod Review
pub mod Schema
pub mod Sessions
pub mod Tickets
pub mod Workflow
