-- ===== src/System/Orders.antt =====
-- The part of the invariant on the work orders, when a decision or an order is written.
use opercerta.Common.{◌≡◌, refl, none, some, [], ◌∷◌, arith}
use opercerta.Domain.Errors.{Uuid}
use opercerta.Domain.Values.{JsonObject, Digest}
use opercerta.Domain.Facts.{ApprovalDecision}
use opercerta.Operations.Transition.{Stamp}
use opercerta.Store.Table.{Table, insert}
use opercerta.Store.Schema.{Approval, WorkOrder, Db}
use opercerta.Approvals.{find_approval}
use opercerta.WorkOrders.{WorkOrderWriteResult}
use opercerta.WorkOrders.Rows.{Created}
use opercerta.Cycles.Decisions.{decision_in-insert}
use opercerta.Cycles.Unique.{NoClash, find_approved-decision_in}
use opercerta.System.Invariant.{AllApproved, WasApproved}

module _ (approvals : Table Approval) (k : Uuid) (a : Approval) (d : ApprovalDecision)
    (free : find_approval a.operation_id a.approval_cycle approvals ≡ none)
    (decision : a.decision ≡ some d) where
  WasApproved-insert :
      (id : Uuid) → WasApproved approvals id → WasApproved (insert k a approvals) id
  WasApproved-insert id (c, e) =
      (c, ground (arith, decision_in-insert approvals k a d free decision id c))

  pub AllApproved-insert :
      (orders : Table WorkOrder)
      → AllApproved approvals orders
      → AllApproved (insert k a approvals) orders
  AllApproved-insert [] h = tt
  AllApproved-insert ((j, w) ∷ t) (key, e, taken, h) =
      (key, WasApproved-insert w.operation_id e, taken, AllApproved-insert t h)

pub AllApproved-Created :
    {operation_id : Uuid} {payload : JsonObject} {digest : Digest} {id : Uuid} {at : Stamp}
    {db db' : Db} {r : WorkOrderWriteResult}
    → NoClash db.approvals
    → (c : Created operation_id payload digest id at db db' r)
    → AllApproved db.approvals db.work_orders
    → AllApproved db.approvals db'.work_orders
unfolding insert
AllApproved-Created {operation_id} {db = db} unique c h = rw c.rows (
  refl,
  (
    c.op.approval_cycle,
    find_approved-decision_in operation_id c.approval_id c.op.approval_cycle c.approval db.approvals
        unique c.approved,
  ),
  c.free,
  h,
)
