-- ===== src/Tickets/Evidence/Fresh.antt =====
-- When `freshCompletionEvidence` of src/tickets/evidence.ts finds evidence.
use ycm_harness.Common.{
  ◌≡◌, refl, returns, Ends, Ends-at, Ends-bind, if◌then◌else◌, inl, inr, String, Option, none, some,
  arith, opt_eq, opt_eq_lem, truthy, Host, Bool-cases,
}
use ycm_harness.Schema.Lean.{State, Ticket, EvidencePointer}
use ycm_harness.Tickets.Machine.{Machine}
use ycm_harness.Tickets.Evidence.{completion_evidence, fresh_completion_evidence, submission_digest}

-- What evidence that is fresh is.
abbrev pub Fresh : Host → Machine → String → State → Ticket → EvidencePointer → Type 0
Fresh host m root state ticket e =
    (completion_evidence host state ticket ≡ some e)
    × ((digest : String) × (e.submission_digest ≡ some digest)
        × (submission_digest m root ticket ≡ returns digest))

Fresh-if :
    (host : Host) (m : Machine) (root : String) (state : State) (ticket : Ticket)
    (e : EvidencePointer) (digest : String)
    → completion_evidence host state ticket ≡ some e
    → submission_digest m root ticket ≡ returns digest
    → (x : EvidencePointer) → (if opt_eq e.submission_digest digest then some e else none) ≡ some x
    → Fresh host m root state ticket x
Fresh-if host m root state ticket e digest h d x q =
    elim (Bool-cases (opt_eq e.submission_digest digest)) [
      | inl b ↦
          let same : e ≡ x = ground (arith, rw b at q) in
          rw (← same) (h, (digest, (opt_eq_lem _ _).0 b, d))
      | inr b ↦ absurd (no (rw b at q))
    ]
  where
    no : ◌≡◌ {A = Option EvidencePointer} none (some x) → ⊥
    no r = cc

abbrev AllFresh : Host → Machine → String → State → Ticket → Option EvidencePointer → Type 0
AllFresh host m root state ticket o =
    (e : EvidencePointer) → o ≡ some e → Fresh host m root state ticket e

-- A pointer that `freshCompletionEvidence` finds is the one of `completionEvidence`, with the digest
-- that `submissionDigest` gives now.
pub fresh_completion_evidence_current :
    (host : Host) (m : Machine) (root : String) (state : State) (ticket : Ticket)
    (o : Option EvidencePointer) (e : EvidencePointer)
    → fresh_completion_evidence host m root state ticket ≡ returns o
    → o ≡ some e
    → Fresh host m root state ticket e
unfolding fresh_completion_evidence
fresh_completion_evidence_current host m root state ticket o e h q =
    (go (completion_evidence host state ticket) refl).holds o h e q
  where
    go :
        (c : Option EvidencePointer)
        → completion_evidence host state ticket ≡ c
        → Ends
            (AllFresh host m root state ticket)
            (fresh_completion_evidence host m root state ticket)
    go none c = rw (fresh_completion_evidence, c) (Ends-at (λ x q. cc))
    go (some p) c = elim (Bool-cases (truthy p.submission_digest)) [
      | inl b ↦
          rw (fresh_completion_evidence, c, b)
            (Ends-bind (λ digest d. Ends-at (Fresh-if host m root state ticket p digest c d)))
      | inr b ↦ rw (fresh_completion_evidence, c, b) (Ends-at (λ x q. cc))
    ]
