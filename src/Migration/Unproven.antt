-- ===== src/Migration/Unproven.antt =====
-- The evidence that `migrateV2ToV3` carries over, against the gate of `ticket done`.
use ycm_harness.Common.{
  ◌≡◌, refl, inl, inr, String, Option, none, some, List, [], ◌∷◌, ◌==◌, Dict, assign, values, In,
  In-assign, not-In-nil, Host, Option-cases, Bool-cases,
}
use ycm_harness.Schema.Legacy.{SmokeEvidence, CommitRecord}
use ycm_harness.Schema.Legacy
use ycm_harness.Schema.Lean.{Ticket, EvidencePointer, LegacyArchive}
use ycm_harness.Tickets.Evidence.{completion_evidence}
use ycm_harness.Tickets.Evidence.Newest.{completion_evidence-some, newest_submission_lem}
use ycm_harness.Migration.{
  add_verification_evidence, add_commit_evidence, migrate_smokes, migrate_commits, migrate_v2_to_v3,
}

-- No pointer has a submission digest.
abbrev NoDigest : Dict EvidencePointer → Type 0
NoDigest d = (e : EvidencePointer) → In e (values d) → e.submission_digest ≡ none

assign-NoDigest :
    (k : String) (p : EvidencePointer) (d : Dict EvidencePointer)
    → p.submission_digest ≡ none
    → NoDigest d
    → NoDigest (assign k p d)
assign-NoDigest k p d h n e i = elim (In-assign k p d i) [ inl s ↦ rw (s) h | inr j ↦ n e j ]

smoke-NoDigest :
    (d : Dict EvidencePointer) (s : SmokeEvidence) (g : Option String)
    → NoDigest d
    → NoDigest (add_verification_evidence d s g)
unfolding add_verification_evidence
smoke-NoDigest d s none n = n
smoke-NoDigest d s (some g) n = elim (Bool-cases (g == "")) [
  | inl e ↦ rw (add_verification_evidence, e) n
  | inr e ↦ rw (add_verification_evidence, e) (assign-NoDigest _ _ d refl n)
]

commit-NoDigest :
    (d : Dict EvidencePointer) (c : CommitRecord) (g : Option String)
    → NoDigest d
    → NoDigest (add_commit_evidence d c g)
unfolding add_commit_evidence
commit-NoDigest d c none n = n
commit-NoDigest d c (some g) n = elim (Bool-cases (g == "")) [
  | inl e ↦ rw (add_commit_evidence, e) n
  | inr e ↦ rw (add_commit_evidence, e) (assign-NoDigest _ _ d refl n)
]

smokes-NoDigest :
    (tasks phases : Dict String) (ss : List SmokeEvidence) (d : Dict EvidencePointer)
    → NoDigest d
    → NoDigest (migrate_smokes tasks phases ss d)
unfolding migrate_smokes
smokes-NoDigest tasks phases [] d n = n
smokes-NoDigest tasks phases (s ∷ ss) d n =
    smokes-NoDigest tasks phases ss _ (smoke-NoDigest d s _ n)

commits-NoDigest :
    (tasks : Dict String) (cs : List CommitRecord) (d : Dict EvidencePointer)
    → NoDigest d
    → NoDigest (migrate_commits tasks cs d)
unfolding migrate_commits
commits-NoDigest tasks [] d n = n
commits-NoDigest tasks (c ∷ cs) d n = commits-NoDigest tasks cs _ (commit-NoDigest d c _ n)

migrated-NoDigest :
    (host : Host) (v2 : Legacy.State) (archive : Option LegacyArchive) (now : String)
    → NoDigest (migrate_v2_to_v3 host v2 archive now).evidence
unfolding migrate_v2_to_v3
migrated-NoDigest host v2 archive now =
    commits-NoDigest _ (values v2.commits) _
      (smokes-NoDigest _ _ (values v2.smoke) [] (λ e i. absurd (not-In-nil i)))

-- In a migrated state no ticket has completion evidence, whatever smokes and commits the V2 state
-- holds: nothing that was recorded before the migration passes the gate of `ticket done`.
pub migrated_evidence_incomplete :
    (host : Host) (v2 : Legacy.State) (archive : Option LegacyArchive) (now : String) (t : Ticket)
    → completion_evidence host (migrate_v2_to_v3 host v2 archive now) t ≡ none
migrated_evidence_incomplete host v2 archive now t =
    elim (Option-cases (completion_evidence host (migrate_v2_to_v3 host v2 archive now) t)) [
      | inl e ↦ e
      | inr (e, found) ↦
          let (sub, digest, newest, s, _, _, _) =
            completion_evidence-some host (migrate_v2_to_v3 host v2 archive now) t e found in
          let (i, _, _) =
            newest_submission_lem host (migrate_v2_to_v3 host v2 archive now) t sub newest in
          absurd (no sub digest (s.1) (migrated-NoDigest host v2 archive now sub i))
    ]
  where
    no :
        (sub : EvidencePointer) (digest : String)
        → sub.submission_digest ≡ some digest
        → sub.submission_digest ≡ none
        → ⊥
    no sub digest p q = cc
