-- ===== src/Tickets/Evidence/Newest.antt =====
-- Which submission and which completion evidence of a ticket src/tickets/evidence.ts finds.
use ycm_harness.Common.{
  ◌≡◌, ◌≢◌, refl, List, ◌↔◌, ◌⊎◌, inl, inr, String, Bool, true, false, not, ◌&&◌, Option, none,
  some, arith, eq_iff, opt_eq_lem, truthy, is_some, lookup, values, filter, head?, sort, In,
  In-filter, In-filter_of, Host, Option-cases, head-sort-first, head-sort-In, head-sort-none,
  and-eq-true_iff,
}
use ycm_harness.Schema.Lean.{State, Ticket, EvidencePointer, EvidenceOutcome, pass}
use ycm_harness.Tickets.Evidence.{
  newer_first, is_submission, newest_submission, is_pass, same_text, vouches, completion_evidence,
}

newer_total :
    (host : Host) (a b : EvidencePointer)
    → (newer_first host a b ≡ true) ⊎ (newer_first host b a ≡ true)
newer_total host a b = host.locale_total b.recorded_at a.recorded_at

newer_trans :
    (host : Host) (a b c : EvidencePointer)
    → newer_first host a b ≡ true
    → newer_first host b c ≡ true
    → newer_first host a c ≡ true
newer_trans host a b c p q = host.locale_trans c.recorded_at b.recorded_at a.recorded_at q p

-- What a sort by recency puts first.
first_lem :
    (host : Host) (p : EvidencePointer → Bool) (xs : List EvidencePointer) (e : EvidencePointer)
    → head? (sort (newer_first host) (filter p xs)) ≡ some e
    → In e xs
      × (p e ≡ true)
      × ((o : EvidencePointer) → In o xs → p o ≡ true → newer_first host e o ≡ true)
first_lem host p xs e h =
    let (i, q) = In-filter p xs (head-sort-In _ _ e h) in
    (
      i,
      q,
      λ o j r.
          head-sort-first (newer_first host) (newer_total host) (newer_trans host) _ e h o
            (In-filter_of p j r),
    )

some_first_lem :
    (host : Host) (p : EvidencePointer → Bool) (xs : List EvidencePointer) {e : EvidencePointer}
    → In e xs
    → p e ≡ true
    → (m : EvidencePointer) × (head? (sort (newer_first host) (filter p xs)) ≡ some m)
some_first_lem host p xs i q = elim (Option-cases (head? (sort (newer_first host) (filter p xs)))) [
  | inl e ↦ absurd (head-sort-none (newer_first host) _ e (In-filter_of p i q))
  | inr found ↦ found
]

-- The pointer records a submission of the ticket, with its digest.
abbrev pub Submitted : Ticket → String → EvidencePointer → Type 0
Submitted ticket digest e =
    (e.ticket_id ≡ some ticket.id) × (e.submission_digest ≡ some digest) × (digest ≢ "")

-- The pointer records that the digest passed, in a run of somebody who did not implement it.
abbrev pub Vouched : Ticket → String → EvidencePointer → Type 0
Vouched ticket digest e =
    (e.ticket_id ≡ some ticket.id)
    × (e.outcome ≡ some pass)
    × (e.submission_digest ≡ some digest)
    × ((i v : String) × (lookup "implementer_run" e.provenance ≡ some i)
        × (lookup "verifier_run" e.provenance ≡ some v)
        × (i ≢ "")
        × (v ≢ "")
        × (i ≢ v))

pub truthy_lem : (o : Option String) → (truthy o ≡ true) ↔ ((s : String) × (o ≡ some s) × (s ≢ ""))
truthy_lem none = (λ h. cc, λ (s, e, n). cc)
truthy_lem (some s) =
    (λ h. (s, refl, λ e. ground (arith, eq_iff s "")), λ (t, e, n). ground (arith, eq_iff s ""))

pub is_submission_iff :
    (ticket : Ticket) (e : EvidencePointer)
    → (is_submission ticket e ≡ true) ↔ ((digest : String) × Submitted ticket digest e)
is_submission_iff ticket e = (
  λ h.
      let (a, b) = (and-eq-true_iff _ _).0 h in
      let (s, p, q) = (truthy_lem _).0 b in (s, ((opt_eq_lem _ _).0 a, p, q)),
  λ (s, (a, p, q)). (and-eq-true_iff _ _).1 ((opt_eq_lem _ _).1 a, (truthy_lem _).1 (s, p, q)),
)

is_pass_lem : (o : Option EvidenceOutcome) → (is_pass o ≡ true) ↔ (o ≡ some pass)
is_pass_lem none = (λ h. cc, λ h. cc)
is_pass_lem (some pass) = (λ h. refl, λ h. refl)
is_pass_lem (some EvidenceOutcome.fail) = (λ h. cc, λ h. cc)
is_pass_lem (some EvidenceOutcome.not_applicable) = (λ h. cc, λ h. cc)

same_text_lem : (o : Option String) (s : String) → (same_text o (some s) ≡ true) ↔ (o ≡ some s)
same_text_lem none s = (λ h. cc, λ h. cc)
same_text_lem (some t) s = (λ h. ground (arith, eq_iff s t), λ h. ground (arith, eq_iff s t))

-- Two runs that are named and differ.
runs_lem :
    (i v : Option String)
    → (truthy i && (truthy v && not (same_text i v)) ≡ true)
      ↔ ((a b : String) × (i ≡ some a) × (v ≡ some b) × (a ≢ "") × (b ≢ "") × (a ≢ b))
runs_lem none v = (λ h. cc, λ r. cc (r.2))
runs_lem (some i) none = (λ h. ground arith, λ r. cc (r.3))
runs_lem (some i) (some v) = (
  λ h. (
    i,
    v,
    refl,
    refl,
    λ e. ground (arith, eq_iff i ""),
    λ e. ground (arith, eq_iff v ""),
    λ e. ground (arith, eq_iff v i),
  ),
  λ (a, b, p, q, na, nb, n). ground (arith, eq_iff i "", eq_iff v "", eq_iff v i),
)

pub vouches_iff :
    (ticket : Ticket) (digest : String) (e : EvidencePointer)
    → (vouches ticket (some digest) e ≡ true) ↔ Vouched ticket digest e
vouches_iff ticket digest e = (
  λ h.
      let (a, h1) = (and-eq-true_iff _ _).0 h in
      let (b, h2) = (and-eq-true_iff _ _).0 h1 in
      let (c, h3) = (and-eq-true_iff _ _).0 h2 in
      ((opt_eq_lem _ _).0 a, (is_pass_lem _).0 b, (same_text_lem _ _).0 c, (runs_lem _ _).0 h3),
  λ (a, b, c, d). (and-eq-true_iff _ _).1 (
    (opt_eq_lem _ _).1 a,
    (and-eq-true_iff _ _).1 (
      (is_pass_lem _).1 b,
      (and-eq-true_iff _ _).1 ((same_text_lem _ _).1 c, (runs_lem _ _).1 d),
    ),
  ),
)

-- The submission that the code takes is on record for the ticket, with its digest, and no other is
-- recorded later.
pub newest_submission_lem :
    (host : Host) (state : State) (ticket : Ticket) (e : EvidencePointer)
    → newest_submission host state ticket ≡ some e
    → In e (values state.evidence)
      × ((digest : String) × Submitted ticket digest e)
      × ((o : EvidencePointer)
          → In o (values state.evidence)
          → (digest : String) → Submitted ticket digest o
          → host.locale_le o.recorded_at e.recorded_at ≡ true)
unfolding newest_submission
newest_submission_lem host state ticket e h =
    let (i, q, newest) = first_lem host (is_submission ticket) (values state.evidence) e h in
    (
      i,
      (is_submission_iff ticket e).0 q,
      λ o j digest s. newest o j ((is_submission_iff ticket o).1 (digest, s)),
    )

completion_of_submission :
    (host : Host) (state : State) (ticket : Ticket) (sub : EvidencePointer) (digest : String)
    → newest_submission host state ticket ≡ some sub
    → Submitted ticket digest sub
    → completion_evidence host state ticket
      ≡ head?
          (sort (newer_first host) (filter (vouches ticket (some digest)) (values state.evidence)))
unfolding completion_evidence
completion_of_submission host state ticket sub digest h s =
    rw (completion_evidence, h, s.1, (truthy_lem (some digest)).1 (digest, refl, s.2)) refl

-- The newest submission of the ticket, and the newest evidence that its digest passed.
abbrev pub Completion : Host → State → Ticket → EvidencePointer → Type 0
Completion host state ticket e =
    (sub : EvidencePointer) × (digest : String) × (newest_submission host state ticket ≡ some sub)
    × Submitted ticket digest sub
    × In e (values state.evidence)
    × Vouched ticket digest e
    × ((o : EvidencePointer)
        → In o (values state.evidence)
        → Vouched ticket digest o
        → host.locale_le o.recorded_at e.recorded_at ≡ true)

pub completion_evidence-some :
    (host : Host) (state : State) (ticket : Ticket) (e : EvidencePointer)
    → completion_evidence host state ticket ≡ some e
    → Completion host state ticket e
unfolding completion_evidence
completion_evidence-some host state ticket e h =
    elim (Option-cases (newest_submission host state ticket)) [
      | inl none_yet ↦ absurd (nothing (rw (none_yet, completion_evidence) at h))
      | inr (sub, found) ↦
          let (i, (digest, s), newest) = newest_submission_lem host state ticket sub found in
          let same = completion_of_submission host state ticket sub digest found s in
          let (j, q, first) =
            first_lem host (vouches ticket (some digest)) (values state.evidence) e
              (rw same at h) in
          (
            sub,
            digest,
            found,
            s,
            j,
            (vouches_iff ticket digest e).0 q,
            λ o k v. first o k ((vouches_iff ticket digest o).1 v),
          )
    ]
  where
    nothing : ◌≡◌ {A = Option EvidencePointer} none (some e) → ⊥
    nothing q = cc

pub completion_evidence_found :
    (host : Host) (state : State) (ticket : Ticket) (sub e : EvidencePointer) (digest : String)
    → newest_submission host state ticket ≡ some sub
    → Submitted ticket digest sub
    → In e (values state.evidence)
    → Vouched ticket digest e
    → (m : EvidencePointer) × (completion_evidence host state ticket ≡ some m)
completion_evidence_found host state ticket sub e digest h s i v =
    rw (completion_of_submission host state ticket sub digest h s) (
      some_first_lem host (vouches ticket (some digest)) (values state.evidence) i
        ((vouches_iff ticket digest e).1 v))

-- `completionEvidence` finds a pointer exactly when the newest submission of the ticket has a
-- digest and some stored pointer vouches for that digest: it names the ticket, passed, and names
-- an implementer's run and a different verifier's run, both not empty. For every runtime.
pub completion_evidence_iff :
    (host : Host) (state : State) (ticket : Ticket)
    → (is_some (completion_evidence host state ticket) ≡ true) ↔ (
        (sub e : EvidencePointer) × (digest : String) × (newest_submission host state ticket
          ≡ some sub)
        × Submitted ticket digest sub
        × In e (values state.evidence)
        × Vouched ticket digest e)
completion_evidence_iff host state ticket = (
  λ h. elim (Option-cases (completion_evidence host state ticket)) [
    | inl e ↦ absurd (no (rw e at h))
    | inr (e, found) ↦
        let (sub, digest, n, s, i, v, _) = completion_evidence-some host state ticket e found in
        (sub, e, digest, n, s, i, v)
  ],
  λ (sub, e, digest, n, s, i, v).
      let (m, q) = completion_evidence_found host state ticket sub e digest n s i v in rw q refl,
)
  where
    no : false ≡ true → ⊥
    no q = cc
