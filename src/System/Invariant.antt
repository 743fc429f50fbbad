-- ===== src/System/Invariant.antt =====
-- The invariant of the rows, over the tables of all repositories.
use opercerta.Common.{ℕ, ◌≡◌, false, none, some, [], ◌∷◌}
use opercerta.Domain.Errors.{Uuid}
use opercerta.Domain.Facts.{approved}
use opercerta.Store.Table.{Table, get}
use opercerta.Store.Schema.{Operation, Approval, WorkOrder, Db}
use opercerta.Approvals.{find_approval}
use opercerta.WorkOrders.{is_taken}
use opercerta.Audit.Methods.{IsDenseDb}
use opercerta.Cycles.{IsLawful, decision_in}
use opercerta.Signals.Keys.{IsKeyed}
use opercerta.Cycles.Unique.{NoClash}

-- some cycle of the operation ended in an approval
abbrev pub WasApproved : Table Approval → Uuid → Type 0
WasApproved approvals id = (c : ℕ) × (decision_in id c approvals ≡ some approved)

-- no two work orders are for one operation, and each is for an operation that was approved
abbrev pub AllApproved : Table Approval → Table WorkOrder → Type 0
AllApproved approvals [] = Unit {0}
AllApproved approvals ((k, w) ∷ t) =
    (w.idempotency_key ≡ w.operation_id)
    × WasApproved approvals w.operation_id
    × (is_taken w t ≡ false)
    × AllApproved approvals t

pub record IsConsistent (db : Db) : Type 0 where
  pub dense : IsDenseDb db
  pub unique : NoClash db.approvals
  pub lawful :
      (id : Uuid) (op : Operation) → get id db.operations ≡ some op → IsLawful db.approvals id op
  pub owned :
      (id : Uuid) (c : ℕ) → get id db.operations ≡ none → find_approval id c db.approvals ≡ none
  pub orders : AllApproved db.approvals db.work_orders
  pub keyed : IsKeyed db.operational_signals
