-- ===== src/Tickets/Evidence.antt =====
-- src/tickets/evidence.ts.
pub mod Newest
pub mod Fresh
pub mod Exact
pub mod Verification
use Prim.Native.String
use ycm_harness.Common.{
  String, Bool, true, false, not, ◌&&◌, ◌||◌, Option, none, some, List, [], ◌∷◌, ◌==◌, Host, Dict,
  if◌then◌else◌, truthy, opt_eq, lower_is, trim, lookup, values, any, all, filter, map, head?, sort,
  is_some, is_empty, Outcome, returns, throws, ◌>>=◌, ◌>>◌, require, some_or,
}
use ycm_harness.Schema.Lean.{
  State, Goal, Ticket, EvidencePointer, EvidenceKind, EvidenceOutcome, pass, fail,
}
use ycm_harness.Tickets.Machine.{
  Error, not_clean, knowledge_mixed, unknown_page, runs_not_distinct, command_failed, git_failed,
  CommandRun, Machine,
}

-- `submissionDigest(root, ticket)`.
unfoldable pub submission_digest : Machine → String → Ticket → Outcome Error String
submission_digest m root ticket =
    let acceptance = m.sha_acceptance ticket.acceptance in
    if not ticket.code_changed
    then returns (
        m.sha_submission (record {
          ticket_id = ticket.id;
          acceptance = acceptance;
          commit = "none";
          tree = "none";
          dirty = "none";
        }))
    else do
      dirty ← some_or (m.git root).porcelain (git_failed "status")
      require (dirty == "") not_clean
      commit ← some_or (m.git root).head (git_failed "rev-parse")
      tree ← some_or (m.git root).tree (git_failed "rev-parse")
      returns (
          m.sha_submission (record {
            ticket_id = ticket.id;
            acceptance = acceptance;
            commit = commit;
            tree = tree;
            dirty = m.sha dirty;
          }))

-- `[...new Set(values)]`.
distinct_from : List String → List String → List String
distinct_from seen [] = []
distinct_from seen (v ∷ vs) =
    if any (λ s. s == v) seen then distinct_from seen vs else v ∷ distinct_from (v ∷ seen) vs

pages_known : State → List String → Outcome Error (List String) → Outcome Error (List String)
pages_known state [] k = k
pages_known state (id ∷ ids) k =
    if is_some (lookup id state.wiki.pages)
    then pages_known state ids k
    else throws (unknown_page id)

-- `validateKnowledge(state, knowledge)`.
unfoldable pub validate_knowledge : State → List String → Outcome Error (List String)
unfolding distinct_from pages_known lower_is trim
validate_knowledge state knowledge =
    let found = distinct_from [] (filter (λ v. not (v == "")) (map trim knowledge)) in
    if is_empty found || all (λ v. lower_is v "none") found
    then returns ("none" ∷ [])
    else if any (λ v. lower_is v "none") found
    then throws knowledge_mixed
    else pages_known state found (returns found)

-- `evidenceRoot(projectRoot, goal)`.
unfoldable pub evidence_root : Machine → Goal → String
evidence_root m goal = elim goal.worktree_path [
  | none ↦ m.cwd
  | some path ↦ if path == "" then m.cwd else m.resolve m.cwd path
]

-- The texts of `provenance` that a verification leaves.
abbrev run_provenance : String → String → String → String → Dict String
run_provenance implementer verifier knowledge now =
    ("implementer_run", implementer)
    ∷ ("verifier_run", verifier)
    ∷ ("knowledge", knowledge)
    ∷ ("submitted_at", now)
    ∷ []

-- `knowledge.join(",")`.
joined : List String → String
joined [] = ""
joined (k ∷ []) = k
joined (k ∷ ks) = String.◌++◌ k (String.◌++◌ "," (joined ks))

-- `executeVerification(input)`, with the identifier that it draws. No evidence file is given.
unfoldable pub execute_verification :
    Machine
    → String
    → Ticket
    → String
    → String
    → String
    → List String
    → String
    → String
    → Outcome Error (EvidencePointer × CommandRun)
unfolding trim joined
execute_verification m root ticket command implementer verifier knowledge id now = do
  require (not (trim implementer == "" || trim verifier == "" || implementer == verifier))
      runs_not_distinct
  result ← some_or (m.run_shell command root) command_failed
  returns (
    record {
      id = id;
      goal_id = ticket.goal_id;
      ticket_id = some ticket.id;
      kind = EvidenceKind.verification;
      submission_digest = none;
      evidence_digest = some result.sha256;
      evidence_path = some result.log_path;
      remote_comment_id = none;
      command = some command;
      outcome = some (if result.succeeded then pass else fail);
      provenance = run_provenance implementer verifier (joined knowledge) now;
      recorded_at = now;
    },
    result,
  )

abbrev pub newer_first : Host → EvidencePointer → EvidencePointer → Bool
newer_first host a b = host.locale_le b.recorded_at a.recorded_at

abbrev pub is_submission : Ticket → EvidencePointer → Bool
is_submission ticket e = opt_eq e.ticket_id ticket.id && truthy e.submission_digest

-- The newest submission of the ticket.
unfoldable pub newest_submission : Host → State → Ticket → Option EvidencePointer
unfolding sort
newest_submission host state ticket =
    head? (sort (newer_first host) (filter (is_submission ticket) (values state.evidence)))

abbrev is_pass : Option EvidenceOutcome → Bool
is_pass (some pass) = true
is_pass (some _) = false
is_pass none = false

abbrev pub same_text : Option String → Option String → Bool
same_text none none = true
same_text none (some t) = false
same_text (some s) o = opt_eq o s

-- The test of `completionEvidence` on one pointer.
abbrev pub vouches : Ticket → Option String → EvidencePointer → Bool
vouches ticket digest e =
    opt_eq e.ticket_id ticket.id
    && (is_pass e.outcome
        && (same_text e.submission_digest digest
            && (truthy (lookup "implementer_run" e.provenance)
                && (truthy (lookup "verifier_run" e.provenance)
                    && not (
                        same_text (lookup "implementer_run" e.provenance)
                          (lookup "verifier_run" e.provenance))))))

-- `completionEvidence(state, ticket)`.
unfoldable pub completion_evidence : Host → State → Ticket → Option EvidencePointer
unfolding sort
completion_evidence host state ticket = elim (newest_submission host state ticket) [
  | none ↦ none
  | some submitted ↦
      if truthy submitted.submission_digest
      then head? (
          sort (newer_first host)
            (filter (vouches ticket submitted.submission_digest) (values state.evidence)))
      else none
]

-- `freshCompletionEvidence(root, state, ticket)`.
unfoldable pub fresh_completion_evidence :
    Host → Machine → String → State → Ticket → Outcome Error (Option EvidencePointer)
fresh_completion_evidence host m root state ticket = elim (completion_evidence host state ticket) [
  | none ↦ returns none
  | some e ↦
      if truthy e.submission_digest
      then (submission_digest m root ticket >>= λ digest.
          returns (if opt_eq e.submission_digest digest then some e else none))
      else returns none
]
