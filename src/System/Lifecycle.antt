-- ===== src/System/Lifecycle.antt =====
-- The lifecycle of an operation, as a diagram that is written down apart from the code.
pub mod Steps
pub mod Whole
use opercerta.Common.{
  ℕ, ◌+◌, ◌≤◌, ◌≡◌, ◌≢◌, refl, sym, ◌∙◌, Bool, true, false, Option, none, some, ◌==◌, ==_iff, arith,
  inl, inr, if◌then◌else◌,
}
use native.Mathlib.Decide.{ℕ_discrete}
use opercerta.Domain.Status.{OperationStatus, is_terminal}
use opercerta.Domain.Errors.{Uuid, ok}
use opercerta.Domain.Values.{Digest}
use opercerta.Domain.Facts.{EvidenceContent}
use opercerta.Store.Table.{get, insert, update, get-insert}
use opercerta.Store.Schema.{Operation, Db}
use opercerta.Operations.Transition.{changed_operation}
use opercerta.Operations.Transition.Inversion.{Changed, transition-ok}
use opercerta.Operations.Calls
use opercerta.Operations.Calls.{IsCall, IsCall-WritesEvidence, run-IsCall}
use opercerta.Operations.Frame.{operations_after}
use opercerta.Operations.Create.{new_operation}
use opercerta.Operations.Create.Rows.{create-ok, created_tables}
use opercerta.Approvals.{recorded, lapsed, set_status, is_pending_status}
use opercerta.Approvals.Rows.{
  Decided, Lapsed, submit_once-ok, submit_bound-recorded, submit_bound-lapsed,
}
use opercerta.WorkOrders.{counted}
use opercerta.WorkOrders.Rows.{create_or_get_once-ok}
use opercerta.Audit.Methods.{get-update_to}
use opercerta.System.{Step, created, called, submitted, submitted_bound, ordered}

-- the arrows of the diagram, which the service keeps to
pub data Edge : OperationStatus → OperationStatus → Type 0 where
  gather : Edge OperationStatus.received OperationStatus.gathering_evidence
  plan : Edge OperationStatus.gathering_evidence OperationStatus.planning
  validate : Edge OperationStatus.planning OperationStatus.validating
  report : Edge OperationStatus.validating OperationStatus.reporting
  ask : Edge OperationStatus.validating OperationStatus.awaiting_approval
  answer : Edge OperationStatus.reporting OperationStatus.completed
  decide : Edge OperationStatus.awaiting_approval OperationStatus.resuming
  redecide : Edge OperationStatus.needs_reapproval OperationStatus.resuming
  lapse : Edge OperationStatus.awaiting_approval OperationStatus.expired
  relapse : Edge OperationStatus.needs_reapproval OperationStatus.expired
  ask_again : Edge OperationStatus.resuming OperationStatus.needs_reapproval
  abort : Edge OperationStatus.resuming OperationStatus.aborted
  reject : Edge OperationStatus.resuming OperationStatus.rejected
  execute : Edge OperationStatus.resuming OperationStatus.executing
  verify : Edge OperationStatus.executing OperationStatus.verifying
  complete : Edge OperationStatus.verifying OperationStatus.completed
  fail : {s : OperationStatus} → is_terminal s ≡ false → Edge s OperationStatus.failed

-- the status of a row before and after: the same, or along an arrow
pub data Move : Option OperationStatus → Option OperationStatus → Type 0 where
  stays : {s : Option OperationStatus} → Move s s
  goes : {s t : OperationStatus} → Edge s t → Move (some s) (some t)

-- what a later row of an operation has kept of an earlier one
pub record Follows (op op' : Operation) : Type 0 where
  pub move : Move op.status op'.status
  pub thread : op'.thread_id ≡ op.thread_id
  pub events : op.next_audit_sequence ≤ op'.next_audit_sequence

abbrev pub Later : Uuid → Operation → Db → Type 0
Later id op db' = (op' : Operation) × (get id db'.operations ≡ some op') × Follows op op'

pub same :
    (id : Uuid) (op : Operation) (db' : Db) → get id db'.operations ≡ some op → Later id op db'
same id op db' h = (op, h, record { move = stays; thread = refl; events = omega arith })

-- one row is replaced by a later one
pub replaced :
    (db db' : Db) (id : Uuid) (old new : Operation)
    → get id db.operations ≡ some old
    → ((j : Uuid) → get j db'.operations ≡ (if id == j then some new else get j db.operations))
    → Follows old new
    → (j : Uuid) (op : Operation) → get j db.operations ≡ some op
    → Later j op db'
replaced db db' id old new found rows f j op h = elim (ℕ_discrete id j) [
  | yes e ↦
      let is_old = row_of op old (ground arith) in
      (new, ground (arith, rows j, ==_iff id j), rw is_old f)
  | no e ↦ same j op db' (ground (arith, rows j, ==_iff id j))
]
  where
    row_of : (x y : Operation) → some x ≡ some y → x ≡ y
    row_of x y e = ground arith

pub Move-from :
    {s : OperationStatus} {t : OperationStatus} {x : Option OperationStatus}
    → x ≡ some s
    → Edge s t
    → Move x (some t)
Move-from e edge = rw e (goes edge)

pub pending-Move :
    (s : Option OperationStatus) {t : OperationStatus}
    → is_pending_status s ≡ true
    → Edge OperationStatus.awaiting_approval t
    → Edge OperationStatus.needs_reapproval t
    → Move s (some t)
pending-Move (some OperationStatus.awaiting_approval) p a b = goes a
pending-Move (some OperationStatus.needs_reapproval) p a b = goes b
pending-Move none p a b = absurd (cc)
pending-Move (some s) p a b = absurd (ground arith)
