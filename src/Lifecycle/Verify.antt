-- ===== src/Lifecycle/Verify.antt =====
-- `verify run` and `ticket list` against the invariant, and what a verification checks.
use ycm_harness.Common.{
  ◌≡◌, refl, sym, subst, String, Bool, true, false, Option, none, some, arith, eq_iff, List, lookup,
  assign, lookup-assign_self, In-assign_self, Host, returns, Ends, Ends-at, Ends-bind, Ends-some,
  Ends-require, if◌then◌else◌,
}
use ycm_harness.Schema.Lean.{
  State, Goal, Ticket, EvidencePointer, EvidenceOutcome, pass, fail, in_progress, done,
}
use ycm_harness.Tickets.Machine.{
  Error, Machine, World, CommandRun, verification_completion, verification_failed,
}
use ycm_harness.Tickets.Evidence.{newest_submission, submission_digest, evidence_root}
use ycm_harness.Tickets.Evidence.Newest.{newest_submission_lem}
use ycm_harness.Tickets.Evidence.Verification.{Distinct, Executed, execute_verification_lem}
use ycm_harness.Tickets.Provider.StatusChange.{StatusSet}
use ycm_harness.Tickets.Shared.{put_ticket, mark_if_remote, merged}
use ycm_harness.Tickets.Commands.{ticket_list, verify_run, put_evidence}
use ycm_harness.Lifecycle.{Origin, Proven, Sound}
use ycm_harness.Lifecycle.Frame.{
  Sound-put_evidence, Origin-put, ensure_ticket_local, provider_local, provider_set_status_local,
  StatusSet-Sound, mark_local,
}
use ycm_harness.Lifecycle.TicketCommands.{Good, Sound-stamp, goal_for_stored, ensured, unchanged}

-- The pointer that a verification stores.
abbrev stored_pointer : EvidencePointer → String → Option String → EvidencePointer
stored_pointer p digest comment = record p {
  submission_digest = some digest;
  remote_comment_id = comment;
}

module _ (host : Host) (m : Machine) (now : String) where
  -- What `verify run` has stored.
  verified_lem :
      (s s3 s4 : State) (root id command i v digest : String) (t u : Ticket) (p : EvidencePointer)
      (run : CommandRun) (comment : Option String)
      → Sound s
      → lookup id s.evidence ≡ none
      → lookup t.id s.local_tickets ≡ some t
      → Origin s.evidence t.id digest
      → Executed m root t command i v id (p, run)
      → StatusSet
          (put_evidence s (stored_pointer p digest comment))
          t.id
          (if run.succeeded then done else in_progress)
          now
          (s3, u)
      → s4 ≡ s3
      → Sound (put_ticket s4 t.id (merged u t (if run.succeeded then done else in_progress) now))
  verified_lem s s3 s4 root id command i v digest t u p run comment k fresh look o
        (d, _, hid, ht, out, pi, pv) set e =
      rw e (
        StatusSet-Sound host m (put_evidence s (stored_pointer p digest comment)) s3 t.id now
          (if run.succeeded then done else in_progress)
          (if run.succeeded then done else in_progress) u now t
          (Sound-put_evidence s (stored_pointer p digest comment) (rw hid fresh)
            (λ j dg a b. moved j dg (rw ht at a) b) k)
          set refl refl proof)
    where
      origin : Origin (assign p.id (stored_pointer p digest comment) s.evidence) t.id digest
      origin = Origin-put s.evidence p.id _ (rw hid fresh) t.id digest o

      moved :
          (j dg : String)
          → some t.id ≡ some j
          → some digest ≡ some dg
          → Origin (assign p.id (stored_pointer p digest comment) s.evidence) j dg
      moved j dg a b =
          let same : t.id ≡ j = ground arith in
          let digests : digest ≡ dg = ground arith in rw (← same, ← digests) origin

      passed :
          (b : Bool)
          → (if b then done else in_progress) ≡ done
          → ◌≡◌ {A = EvidenceOutcome} (if b then pass else fail) pass
      passed true h = refl
      passed false h = cc

      proof :
          (if run.succeeded then done else in_progress) ≡ done
          → Proven (assign p.id (stored_pointer p digest comment) s.evidence) t
      proof h = (
        digest,
        (
          stored_pointer p digest comment,
          In-assign_self p.id _ s.evidence,
          (ht, rw (out, passed run.succeeded h) refl, refl, (i, v, pi, pv, d.0, d.1, d.2)),
        ),
        origin,
      )

  -- What a verification of the ticket `id` in the state `s` has checked before it stored its pointer,
  -- and what it leaves.
  abbrev pub Checked :
      State → String → String → String → String → String → World × Option Error → Type 0
  Checked s id command i v evidence_id (w, error) =
      (t : Ticket) × (goal : Goal) × (digest : String) × (run : CommandRun) × (lookup id
          s.local_tickets
        ≡ some t)
      × (lookup t.goal_id s.goals ≡ some goal)
      × ((sub : EvidencePointer) × (newest_submission host s t ≡ some sub)
          × (sub.submission_digest ≡ some digest))
      × (submission_digest m (evidence_root m goal) t ≡ returns digest)
      × (m.closure_passes (evidence_root m goal) verification_completion ≡ true)
      × Distinct i v
      × (m.run_shell command (evidence_root m goal) ≡ some run)
      × (error ≡ (if run.succeeded then none else some (verification_failed run.exit_code)))
      × ((u : Ticket) × (lookup t.id w.state.local_tickets ≡ some u)
          × (u.status ≡ (if run.succeeded then done else in_progress)))

  Origin-of :
      (s : State) (t : Ticket) (sub : EvidencePointer) (digest : String)
      → Sound s
      → newest_submission host s t ≡ some sub
      → sub.submission_digest ≡ some digest
      → Origin s.evidence t.id digest
  Origin-of s t sub digest k h q =
      let (i, (dg, (a, b, n)), _) = newest_submission_lem host s t sub h in
      k.traced sub i t.id digest a q

module _ (host : Host) (m : Machine) (w : World) (now : String) where
  pub verify_run-Sound :
      (id command i v : String) (knowledge : List String) (evidence_id : String)
      → lookup evidence_id w.state.evidence ≡ none
      → Good w
      → Ends
          (λ r. Good (r.0) × Checked host m now w.state id command i v evidence_id r)
          (verify_run host m w id command i v knowledge evidence_id now)
  unfolding verify_run
  verify_run-Sound id command i v knowledge evidence_id fresh k = Ends-bind (λ (s, t) h.
      Ends-bind (λ kn _. Ends-some _ (λ sub hs. Ends-some _ (λ digest hd. Ends-some _ (λ goal hg.
        Ends-bind (λ current hcur. Ends-require _ (λ eq. Ends-require _ (λ cl.
          Ends-bind (λ (p, run) hp. Ends-bind (λ b hb. Ends-bind (λ comment _.
            Ends-bind (λ (s3, u) h3. Ends-at (
              let (k1, look) = ensured host m w now id (s, t) k h in
              let l = provider_local s t.goal_id b k1.locals hb in
              let (same, _) = (ensure_ticket_local host m w.state id k.locals).holds (s, t) h in
              let ran =
                (execute_verification_lem m (evidence_root m goal) t command i v kn evidence_id
                    now).holds
                  (p, run) hp in
              let named = (k1.backed id t look).0 in
              let kept =
                verified_lem host m now s s3 (mark_if_remote b s3 t.goal_id now)
                  (evidence_root m goal) evidence_id command i v digest t u p run comment k1
                  (unchanged host m w now id (s, t) evidence_id k h fresh)
                  (subst (λ j. lookup j s.local_tickets ≡ some t) (sym named) look)
                  (Origin-of host m now s t sub digest k1 hs hd) ran
                  (provider_set_status_local host m
                    (put_evidence s (stored_pointer p digest comment)) b t.id now
                    (if run.succeeded then done else in_progress) (s3, u) l h3)
                  (mark_local host m b s3 t.goal_id now l) in
              (
                Sound-stamp _ now kept,
                rw (← same) (
                  t,
                  goal,
                  digest,
                  run,
                  look,
                  hg,
                  (sub, hs, hd),
                  rw ((eq_iff current digest).0 eq) at hcur,
                  cl,
                  ran.0,
                  ran.1,
                  refl,
                  (
                    merged u t (if run.succeeded then done else in_progress) now,
                    lookup-assign_self t.id _ _,
                    refl,
                  ),
                ),
              ))))))))))))))

  pub ticket_list-Sound :
      (goal_id : Option String) → Good w → Ends (λ r. Good (r.0)) (ticket_list host m w goal_id now)
  unfolding ticket_list
  ticket_list-Sound goal_id k = Ends-bind (λ goal hg. Ends-bind (λ b hb.
      Ends-bind
        (λ rows _. rw (k.locals goal (goal_for_stored w.state goal_id goal hg)) (Ends-at k))))

  -- If `verify run` returns, in a world that keeps the invariant and with a new evidence identifier, then
  -- the ticket is stored, its newest submission has the digest that the ticket and its tree have now, the
  -- closure gate passed, the two runs are named and differ, and the command finished; an error is
  -- thrown at the end exactly when the command failed, and the ticket is then stored as in progress, else
  -- as done.
  pub verify_run-Checked :
      (id command i v : String) (knowledge : List String) (evidence_id : String)
      (r : World × Option Error)
      → lookup evidence_id w.state.evidence ≡ none
      → Good w
      → verify_run host m w id command i v knowledge evidence_id now ≡ returns r
      → Checked host m now w.state id command i v evidence_id r
  verify_run-Checked id command i v knowledge evidence_id r fresh k h =
      ((verify_run-Sound id command i v knowledge evidence_id fresh k).holds r h).1
