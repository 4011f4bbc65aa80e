-- ===== src/Lifecycle.antt =====
-- The invariant of the stored state under the ticket, verify and goal commands of src/cli/commands,
-- while every goal has the local backend.
pub mod Frame
pub mod TicketCommands
pub mod Verify
pub mod GoalCommands
pub mod GoalCompletion
pub mod Reachable
pub mod Enforced
pub mod Tests
use ycm_harness.Common.{◌≡◌, String, some, lookup, values, In, Dict}
use ycm_harness.Schema.Lean.{State, Goal, Ticket, EvidencePointer, done, local}
use ycm_harness.Tickets.Evidence.Newest.{Vouched}

-- A pointer of `ticket submit` for the digest.
abbrev pub Origin : Dict EvidencePointer → String → String → Type 0
Origin evidence id digest =
    (o : EvidencePointer) × In o (values evidence)
    × (o.ticket_id ≡ some id)
    × (o.submission_digest ≡ some digest)
    × (lookup "state" o.provenance ≡ some "submitted")

-- A submitted digest of the ticket passed, in a run of somebody who did not implement it.
abbrev pub Proven : Dict EvidencePointer → Ticket → Type 0
Proven evidence t =
    (digest : String) × ((e : EvidencePointer) × In e (values evidence) × Vouched t digest e)
    × Origin evidence t.id digest

abbrev pub AllLocal : Dict Goal → Type 0
AllLocal goals = (g : Goal) → In g (values goals) → g.backend ≡ local

-- Every digest on record for a ticket was submitted for it.
abbrev pub Traced : Dict EvidencePointer → Type 0
Traced evidence =
    (e : EvidencePointer)
    → In e (values evidence)
    → (id digest : String) → e.ticket_id ≡ some id
    → e.submission_digest ≡ some digest
    → Origin evidence id digest

-- A ticket stands under its identifier, and is done only with its proof.
abbrev pub Backed : Dict EvidencePointer → Dict Ticket → Type 0
Backed evidence tickets =
    (id : String) (t : Ticket)
    → lookup id tickets ≡ some t
    → (t.id ≡ id) × (t.status ≡ done → Proven evidence t)

pub record Sound (s : State) : Type 0 where
  pub locals : AllLocal s.goals
  pub traced : Traced s.evidence
  pub backed : Backed s.evidence s.local_tickets
