-- ===== src/Tickets/Evidence/Verification.antt =====
-- What `executeVerification` of src/tickets/evidence.ts records.
use ycm_harness.Common.{
  ◌≡◌, ◌≢◌, refl, String, true, not, ◌||◌, some, arith, eq_iff, ◌==◌, List, lookup, trim, Ends,
  Ends-at, Ends-some, Ends-require, if◌then◌else◌,
}
use ycm_harness.Schema.Lean.{Ticket, EvidencePointer, pass, fail}
use ycm_harness.Tickets.Machine.{Machine, CommandRun}
use ycm_harness.Tickets.Evidence.{execute_verification}

-- Two runs that are named and differ.
abbrev pub Distinct : String → String → Type 0
Distinct i v = (i ≢ "") × (v ≢ "") × (i ≢ v)

distinct_lem : (i v : String) → not (trim i == "" || trim v == "" || i == v) ≡ true → Distinct i v
unfolding trim
distinct_lem i v h = (
  λ e. ground (arith, h, blank i e),
  λ e. ground (arith, h, blank v e),
  λ e. ground (arith, h, eq_iff i v),
)
  where
    blank : (s : String) → s ≡ "" → (trim s == "") ≡ true
    blank s e = rw e refl

-- The pointer tells of a finished run of the command for the ticket.
abbrev pub Executed :
    Machine
    → String
    → Ticket
    → String
    → String
    → String
    → String
    → EvidencePointer × CommandRun
    → Type 0
Executed m root t command i v id (e, run) =
    Distinct i v
    × (m.run_shell command root ≡ some run)
    × (e.id ≡ id)
    × (e.ticket_id ≡ some t.id)
    × (e.outcome ≡ some (if run.succeeded then pass else fail))
    × (lookup "implementer_run" e.provenance ≡ some i)
    × (lookup "verifier_run" e.provenance ≡ some v)

pub execute_verification_lem :
    (m : Machine) (root : String) (t : Ticket) (command i v : String) (knowledge : List String)
    (id now : String)
    → Ends
        (Executed m root t command i v id)
        (execute_verification m root t command i v knowledge id now)
unfolding execute_verification lookup
execute_verification_lem m root t command i v knowledge id now =
    Ends-require _
      (λ d. Ends-some _ (λ run hr. Ends-at (distinct_lem i v d, hr, refl, refl, refl, refl, refl)))
