-- ===== src/Tickets/Evidence/Exact.antt =====
-- When `submissionDigest` and `freshCompletionEvidence` of src/tickets/evidence.ts return.
use ycm_harness.Common.{
  ◌≡◌, ◌≢◌, refl, ap, ◌∙◌, ◌↔◌, inl, inr, String, true, false, Option, none, some, arith, eq_iff,
  opt_eq_lem, truthy, Host, Bool-cases, returns, Outcome, Ends, Ends-at, Ends-some, Ends-require,
  ◌>>=◌, ◌>>◌, require, some_or,
}
use ycm_harness.Schema.Lean.{State, Ticket, EvidencePointer}
use ycm_harness.Tickets.Machine.{Error, Machine, git_failed, not_clean}
use ycm_harness.Tickets.Evidence.{completion_evidence, fresh_completion_evidence, submission_digest}
use ycm_harness.Tickets.Evidence.Newest.{truthy_lem}
use ycm_harness.Tickets.Evidence.Fresh.{fresh_completion_evidence_current}

-- The digest of a ticket without code changes, and of one whose changes are committed in `root`.
abbrev pub DigestedBare : Machine → Ticket → String → Type 0
DigestedBare m ticket digest =
    digest
    ≡ m.sha_submission (record {
      ticket_id = ticket.id;
      acceptance = m.sha_acceptance ticket.acceptance;
      commit = "none";
      tree = "none";
      dirty = "none";
    })

abbrev pub DigestedTree : Machine → String → Ticket → String → Type 0
DigestedTree m root ticket digest =
    ((m.git root).porcelain ≡ some "")
    × ((commit : String) × (tree : String) × ((m.git root).head ≡ some commit)
        × ((m.git root).tree ≡ some tree)
        × (digest
            ≡ m.sha_submission (record {
              ticket_id = ticket.id;
              acceptance = m.sha_acceptance ticket.acceptance;
              commit = commit;
              tree = tree;
              dirty = m.sha "";
            })))

-- The digest of the ticket and, if it changes code, of the committed and clean tree in `root`.
abbrev pub Digested : Machine → String → Ticket → String → Type 0
Digested m root ticket digest =
    (ticket.code_changed ≡ false → DigestedBare m ticket digest)
    × (ticket.code_changed ≡ true → DigestedTree m root ticket digest)

bare_returns :
    (m : Machine) (root : String) (ticket : Ticket) (digest : String)
    → ticket.code_changed ≡ false
    → (submission_digest m root ticket ≡ returns digest) ↔ DigestedBare m ticket digest
unfolding submission_digest
bare_returns m root ticket digest e = (λ h. ground arith, λ h. ground arith)

tree_clean :
    (m : Machine) (root : String) (ticket : Ticket)
    → ticket.code_changed ≡ true
    → Ends (DigestedTree m root ticket) (submission_digest m root ticket)
unfolding submission_digest
tree_clean m root ticket e =
    rw (submission_digest, e)
      (Ends-some (git_failed "status") (λ dirty clean. Ends-require not_clean (λ b.
        let empty = (eq_iff dirty "").0 b in
        Ends-some (git_failed "rev-parse") (λ commit head.
          Ends-some (git_failed "rev-parse") (λ tree at.
            Ends-at (clean ∙ ap some empty, (commit, tree, head, at, rw empty refl)))))))

tree_returns :
    (m : Machine) (root : String) (ticket : Ticket) (digest : String)
    → ticket.code_changed ≡ true
    → DigestedTree m root ticket digest
    → submission_digest m root ticket ≡ returns digest
unfolding submission_digest ◌>>=◌ ◌>>◌ require some_or
tree_returns m root ticket digest e (clean, (commit, tree, head, at, d)) =
    rw (submission_digest, e, clean, head, at, d) refl

submission_digest_iff :
    (m : Machine) (root : String) (ticket : Ticket) (digest : String)
    → (submission_digest m root ticket ≡ returns digest) ↔ Digested m root ticket digest
submission_digest_iff m root ticket digest = elim (Bool-cases ticket.code_changed) [
  | inl e ↦ (
    λ h. (λ n. cc, λ _. (tree_clean m root ticket e).holds digest h),
    λ d. tree_returns m root ticket digest e (d.1 e),
  )
  | inr e ↦
      let bare = bare_returns m root ticket digest e in
      (λ h. (λ _. bare.0 h, λ n. cc), λ d. bare.1 (d.0 e))
]

-- The pointer is the completion evidence of the ticket, and its digest, not empty, is that of the
-- ticket and the tree as they are now.
abbrev pub Current : Host → Machine → String → State → Ticket → EvidencePointer → Type 0
Current host m root state ticket e =
    (completion_evidence host state ticket ≡ some e)
    × ((digest : String) × (e.submission_digest ≡ some digest)
        × (digest ≢ "")
        × Digested m root ticket digest)

module _ (host : Host) (m : Machine) (root : String) (state : State) (ticket : Ticket)
    (e : EvidencePointer) where
  finds :
      Current host m root state ticket e
      → fresh_completion_evidence host m root state ticket ≡ returns (some e)
  unfolding fresh_completion_evidence ◌>>=◌
  finds (found, (digest, given, full, taken)) =
      let now = (submission_digest_iff m root ticket digest).1 taken in
      let filled = (truthy_lem e.submission_digest).1 (digest, given, full) in
      let same = (opt_eq_lem e.submission_digest digest).1 given in
      rw (fresh_completion_evidence, found, filled, now, same) refl

  filled_lem :
      completion_evidence host state ticket ≡ some e
      → fresh_completion_evidence host m root state ticket ≡ returns (some e)
      → truthy e.submission_digest ≡ true
  unfolding fresh_completion_evidence
  filled_lem found h = elim (Bool-cases (truthy e.submission_digest)) [
    | inl b ↦ b
    | inr b ↦ absurd (no (rw (fresh_completion_evidence, found, b) at h))
  ]
    where
      no : ◌≡◌ {A = Outcome Error (Option EvidencePointer)} (returns none) (returns (some e)) → ⊥
      no q = cc

  current :
      fresh_completion_evidence host m root state ticket ≡ returns (some e)
      → Current host m root state ticket e
  current h =
      let (found, (digest, given, now)) =
        fresh_completion_evidence_current host m root state ticket (some e) e h refl in
      let (d, at, full) = (truthy_lem e.submission_digest).0 (filled_lem found h) in
      let same : d ≡ digest = ground (arith) in
      (
        found,
        (
          digest,
          given,
          λ empty. full (same ∙ empty),
          (submission_digest_iff m root ticket digest).0 now,
        ),
      )

-- `freshCompletionEvidence` finds a pointer exactly when it is the one that `completionEvidence`
-- finds and its digest, not empty, is that of the ticket's identifier and acceptance criteria and, if
-- the ticket changes code, of the commit and the tree that git names in `root`, where the working
-- tree is clean. For every runtime, machine, root, state and ticket.
pub fresh_completion_evidence_iff :
    (host : Host) (m : Machine) (root : String) (state : State) (ticket : Ticket)
    (e : EvidencePointer)
    → (fresh_completion_evidence host m root state ticket ≡ returns (some e))
      ↔ Current host m root state ticket e
fresh_completion_evidence_iff host m root state ticket e =
    (current host m root state ticket e, finds host m root state ticket e)
