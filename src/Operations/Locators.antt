-- ===== src/Operations/Locators.antt =====
-- The checks that run inside a transaction: `_require_approval_locator` and
-- `_require_work_order_locator`.
use opercerta.Common.{Bool, true, false, not, Option, none, some, ◌==◌}
use opercerta.Domain.Errors.{Uuid, Result, ok, err, recovery_state_conflict, raise_if, ◌>>=◌, ◌>>◌}
use opercerta.Domain.Facts.{ApprovalDecision, approved, rejected}
use opercerta.Store.Table.{get}
use opercerta.Store.Schema.{Operation, Approval, WorkOrder, Db}

abbrev pub same_decision : Option ApprovalDecision → ApprovalDecision → Bool
same_decision (some approved) approved = true
same_decision (some rejected) rejected = true
same_decision _ _ = false

-- `approvals JOIN operations`: an approval without its operation is no row of the join
abbrev joined : Option Approval → (Approval → Option Operation) → Option (Approval × Operation)
joined none find = none
joined (some a) find = elim (find a) [ none ↦ none | some op ↦ some (a, op) ]

abbrev located : Uuid → Option (Approval × Operation) → Result (Approval × Operation)
located id none = err (recovery_state_conflict id "approval_locator_missing")
located id (some r) = ok r

unfoldable pub require_approval_locator : Uuid → Uuid → ApprovalDecision → Db → Result (Unit {0})
require_approval_locator id approval_id expected db = do
  row ← located id (joined (get approval_id db.approvals) (λ a. get a.operation_id db.operations))
  raise_if (not (row.0.operation_id == id))
      (recovery_state_conflict id "approval_operation_mismatch")
  raise_if (not (same_decision row.0.decision expected))
      (recovery_state_conflict id "approval_decision_mismatch")
  raise_if (not (row.0.approval_cycle == row.1.approval_cycle))
      (recovery_state_conflict id "stale_approval_cycle")

abbrev located_work_order : Uuid → Option WorkOrder → Result WorkOrder
located_work_order id none = err (recovery_state_conflict id "work_order_locator_missing")
located_work_order id (some w) = ok w

unfoldable pub require_work_order_locator : Uuid → Uuid → Db → Result (Unit {0})
require_work_order_locator id work_order_id db = do
  w ← located_work_order id (get work_order_id db.work_orders)
  raise_if (not (w.operation_id == id)) (recovery_state_conflict id "work_order_operation_mismatch")
