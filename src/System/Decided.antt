-- ===== src/System/Decided.antt =====
-- The invariant of the rows and a recorded decision of the approval repository.
use opercerta.Common.{ℕ, ◌≡◌, none, some, ◌==◌, ==_iff, arith, if◌then◌else◌}
use opercerta.Domain.Status.{OperationStatus}
use opercerta.Domain.Errors.{Uuid}
use opercerta.Store.Table.{Table, get, insert}
use opercerta.Store.Schema.{Operation, Approval, Db}
use opercerta.Approvals.{ApprovalCommand, ApprovalRecord, find_approval, set_status}
use opercerta.Approvals.Rows.{Decided, decided_db}
use opercerta.Audit.Methods.{Decided-IsDenseDb, get-update_to}
use opercerta.Cycles.{IsLawful}
use opercerta.Cycles.Decisions.{insert_other-IsLawful, resuming-IsLawful}
use opercerta.Cycles.Unique.{NoClash, find_approval-insert}
use opercerta.System.Invariant.{IsConsistent}
use opercerta.System.Preservation.{all_rows, row_other, row_id}
use opercerta.System.Orders.{AllApproved-insert}

-- the row is free, and the insertion keeps the constraint
NoClash-insert :
    (k : Uuid) (a : Approval) (t : Table Approval)
    → get k t ≡ none
    → find_approval a.operation_id a.approval_cycle t ≡ none
    → NoClash t
    → NoClash (insert k a t)
unfolding insert
NoClash-insert k a t new free u = (new, free, u)

module _ (command : ApprovalCommand) (k : Uuid) (now : ℕ) (event_id : Uuid) (db db' : Db)
    (r : ApprovalRecord) (new : get k db.approvals ≡ none)
    (m : Decided command k now event_id db db' r) where
  free : find_approval m.row.operation_id m.row.approval_cycle db.approvals ≡ none
  free = rw (m.of_operation, m.of_cycle) m.undecided

  rows_after :
      (j : Uuid)
      → get j (decided_db k command m.op m.row now event_id db).operations ≡ (
          if command.operation_id == j
          then some (set_status OperationStatus.resuming now m.op m.op)
          else get j db.operations)
  rows_after j = get-update_to db command.operation_id m.op _ m.found j

  IsLawful-after :
      IsConsistent db
      → (j : Uuid) (op : Operation)
      → get j (decided_db k command m.op m.row now event_id db).operations ≡ some op
      → IsLawful (insert k m.row db.approvals) j op
  IsLawful-after c =
      all_rows db.operations _ command.operation_id
        (set_status OperationStatus.resuming now m.op m.op) rows_after
        (IsLawful (insert k m.row db.approvals))
        (resuming-IsLawful db.approvals k m.row command.decision free m.of_decision
          command.operation_id m.op now m.of_operation m.of_cycle (c.lawful _ m.op m.found))
        (λ j op other h.
          insert_other-IsLawful db.approvals k m.row command.decision free m.of_decision j op
            (rw m.of_operation other) (c.lawful j op h))

  owned_after :
      IsConsistent db
      → (j : Uuid) (n : ℕ)
      → get j (decided_db k command m.op m.row now event_id db).operations ≡ none
      → find_approval j n (insert k m.row db.approvals) ≡ none
  owned_after c j n h =
      let other = row_id db.operations _ command.operation_id _ rows_after j h in
      let same = row_other db.operations _ command.operation_id _ rows_after j other in
      ground (
        arith,
        find_approval-insert j k n m.row db.approvals,
        ==_iff m.row.operation_id j,
        m.of_operation,
        c.owned j n,
      )

  pub Decided-IsConsistent : IsConsistent db → IsConsistent db'
  Decided-IsConsistent c = record {
    dense = Decided-IsDenseDb db db' m c.dense;
    unique = rw m.rows (NoClash-insert k m.row db.approvals new free c.unique);
    lawful = rw m.rows (IsLawful-after c);
    owned = rw m.rows (owned_after c);
    orders = rw m.rows (
        AllApproved-insert db.approvals k m.row command.decision free m.of_decision db.work_orders
          c.orders);
    keyed = rw m.rows c.keyed;
  }
