-- ===== src/Approvals/Once.antt =====
-- The outcomes of a bound submission.
use opercerta.Common.{
  ℕ, ◌+◌, ◌≡◌, true, false, none, some, arith, leb, if◌then◌else◌, Bool-cases, inl, inr,
}
use opercerta.Domain.Errors.{Uuid, ok, err, approval_snapshot_mismatch, approval_expired}
use opercerta.Domain.Values.{aware, require_timezone}
use opercerta.Domain.Scenarios.{ApprovalBinding}
use opercerta.Store.Table.{get}
use opercerta.Store.Schema.{Operation, Db}
use opercerta.Store.Tx.{has_sequence}
use opercerta.Operations.Snapshots.{current_binding, differs}
use opercerta.Approvals.{
  ApprovalCommand, find_approval, is_pending_status, approval_row, approval_record,
  inventory_values, submit_bound, submit_bound_once,
}
use opercerta.Approvals.Rows.{decided_db, lapsed_db}

-- an operation that waits for a decision until a time, with a binding
pub record IsAwaiting (id : Uuid) (op : Operation) (expires : ℕ) (binding : ApprovalBinding)
    (db : Db) : Type 0 where
  pub found : get id db.operations ≡ some op
  pub undecided : find_approval id op.approval_cycle db.approvals ≡ none
  pub pending : is_pending_status op.status ≡ true
  pub expiry : op.approval_expires_at ≡ some expires
  pub stored : current_binding op.request_payload ≡ ok binding
  pub unused : has_sequence id (op.next_audit_sequence + 1) db.audit_events ≡ false

-- For an operation that waits for a decision, with an expiry, a stored binding that is valid and
-- a next event number that is free, a bound submission expires the operation and raises when the
-- time has run out, raises and leaves all rows alone when the approver saw another binding, and
-- records the decision otherwise.
pub submit_bound_once_outcomes :
    (command : ApprovalCommand) (expected binding : ApprovalBinding) (now k event_id expires : ℕ)
    (op : Operation) (db : Db)
    → IsAwaiting command.operation_id op expires binding db
    → submit_bound_once command expected (aware now) k event_id db ≡ (
        if leb expires now
        then (err approval_expired, lapsed_db command.operation_id op expires now event_id db)
        else if differs expected binding
        then (err approval_snapshot_mismatch, db)
        else (
          ok (approval_record k command op.approval_cycle now),
          decided_db k command op
              (approval_row command op.approval_cycle now
                (inventory_values binding)
                (some binding)
                (some binding.subject_evidence_id))
              now
              event_id
              db,
        ))
unfolding submit_bound_once submit_bound require_timezone
submit_bound_once_outcomes command expected binding now k event_id expires op db w =
    let found = w.found in
    let undecided = w.undecided in
    let pending = w.pending in
    let expiry = w.expiry in
    let stored = w.stored in
    let unused = w.unused in
    elim (Bool-cases (leb expires now)) [
      | inl late ↦ ground arith
      | inr in_time ↦ elim (Bool-cases (differs expected binding)) [
        | inl other ↦ ground arith
        | inr same ↦ ground arith
      ]
    ]
