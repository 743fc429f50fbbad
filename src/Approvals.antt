-- ===== src/Approvals.antt =====
-- src/opercerta/infrastructure/db/approval_repository.py: a decision is recorded once for each
-- approval cycle.
pub mod Rows
pub mod Once
use opercerta.Common.{
  ℕ, ◌+◌, String, Bool, true, false, not, ◌&&◌, ◌||◌, Option, none, some, ◌==◌, leb,
}
use opercerta.Domain.Status.{OperationStatus}
use opercerta.Domain.Errors.{
  Uuid, Error, Result, ok, err, approval_already_decided, recovery_state_conflict,
  approval_snapshot_mismatch, approval_expired, raise_if, ◌>>=◌ as bind,
}
use opercerta.Domain.Values.{DateTime, require_timezone}
use opercerta.Domain.Contracts.{is_none}
use opercerta.Domain.Scenarios.{ActionParameters, replenishment, ApprovalBinding, InventoryBinding}
use opercerta.Domain.Facts.{ApprovalDecision}
use opercerta.Store.Table.{Table, insert, update, find_row}
use opercerta.Store.Schema.{
  Operation, Approval, AuditEvent, EventType, approval_recorded, approval_expired, EventPayload,
  of_decision, of_expiry, Db,
}
use opercerta.Store.Tx.{Tx, lift, query, modify, pure, commit, insert_audit_event, ◌>>=◌, ◌>>◌}
use opercerta.Operations.Transition.{Stamp, locked_operation}
use opercerta.Operations.Snapshots.{current_binding, differs}

pub record ApprovalCommand : Type 0 where
  pub operation_id : Uuid
  pub approver_id : String
  pub decision : ApprovalDecision
  pub reason : String

pub record ApprovalRecord : Type 0 where
  pub id : Uuid
  pub operation_id : Uuid
  pub approver_id : String
  pub decision : ApprovalDecision
  pub reason : String
  pub created_at : ℕ
  pub approval_cycle : ℕ

-- `operation["status"] in {"awaiting_approval", "needs_reapproval"}`
abbrev pub is_pending_status : Option OperationStatus → Bool
is_pending_status (some OperationStatus.awaiting_approval) = true
is_pending_status (some OperationStatus.needs_reapproval) = true
is_pending_status _ = false

-- the approval of an operation in a cycle
unfoldable pub find_approval : Uuid → ℕ → Table Approval → Option (Uuid × Approval)
find_approval id cycle approvals =
    find_row (λ (a : Approval). a.operation_id == id && a.approval_cycle == cycle) approvals

-- the guard that both methods share
unfoldable pub require_undecided : Uuid → Operation → Db → Result (Unit {0})
require_undecided id op db =
    raise_if
      (not (is_none (find_approval id op.approval_cycle db.approvals))
        || not (is_pending_status op.status))
      (approval_already_decided id)

-- `update(operations)` of a decision or an expiry
abbrev pub set_status : OperationStatus → ℕ → Operation → Operation → Operation
set_status status now op _ = record op {
  status = some status;
  next_audit_sequence = op.next_audit_sequence + 1;
  updated_at = now;
}

abbrev pub update_status : Uuid → OperationStatus → ℕ → Operation → Db → Db
update_status id status now op db = record db {
  operations = update id (set_status status now op) db.operations;
}

abbrev pub event : Uuid → Operation → EventType → EventPayload → ℕ → Uuid → AuditEvent
event id op kind payload now event_id = record {
  id = event_id;
  operation_id = id;
  sequence = op.next_audit_sequence + 1;
  event_type = kind;
  payload = payload;
  created_at = now;
}

abbrev pub approval_row :
    ApprovalCommand
    → ℕ
    → ℕ
    → Option InventoryBinding
    → Option ApprovalBinding
    → Option Uuid
    → Approval
approval_row command cycle now inventory binding subject = record {
  operation_id = command.operation_id;
  approver_id = command.approver_id;
  decision = some command.decision;
  reason = command.reason;
  approval_cycle = cycle;
  inventory_binding = inventory;
  subject_evidence_id = subject;
  binding_payload = binding;
  created_at = now;
}

abbrev pub approval_record : Uuid → ApprovalCommand → ℕ → ℕ → ApprovalRecord
approval_record id command cycle now = record {
  id = id;
  operation_id = command.operation_id;
  approver_id = command.approver_id;
  decision = command.decision;
  reason = command.reason;
  created_at = now;
  approval_cycle = cycle;
}

-- the three writes of a decision: the approval, the status and the event
unfoldable pub record_decision :
    Uuid → ApprovalCommand → Operation → Approval → ℕ → Uuid → Tx ApprovalRecord
unfolding insert_audit_event
record_decision approval_id command op row now event_id = do
  modify (λ db. record db { approvals = insert approval_id row db.approvals })
  modify (update_status command.operation_id OperationStatus.resuming now op)
  insert_audit_event (
      event command.operation_id op EventType.approval_recorded
        (of_decision approval_id command.decision op.approval_cycle) now event_id)
  pure (approval_record approval_id command op.approval_cycle now)

unfoldable pub submit_once : ApprovalCommand → Uuid → Stamp → Tx ApprovalRecord
unfolding locked_operation require_undecided record_decision
submit_once command approval_id at = do
  op ← query (locked_operation command.operation_id)
  query (require_undecided command.operation_id op)
  record_decision approval_id command op
      (approval_row command op.approval_cycle at.now none none none) at.now at.event_id

abbrev quantity_values : ApprovalBinding → ActionParameters → Option InventoryBinding
quantity_values b (replenishment quantity) = some (record {
  inventory_evidence_id = b.subject_evidence_id;
  policy_evidence_id = b.policy_evidence_id;
  rule_version = b.rule_version;
  decision_facts_hash = b.decision_facts_hash;
  plan_hash = b.plan_hash;
  recommended_quantity = quantity;
})
quantity_values b _ = none

-- `_legacy_inventory_values`
abbrev pub inventory_values : ApprovalBinding → Option InventoryBinding
inventory_values b = quantity_values b b.parameters

-- how the transaction of `submit_bound_once` ends when it commits
pub data Submission : Type 0 where
  recorded : ApprovalRecord → Submission
  lapsed : Submission

abbrev pub expiry_of : Uuid → Option ℕ → Result ℕ
expiry_of id none = err (recovery_state_conflict id "approval_expiry_missing")
expiry_of id (some t) = ok t

-- the branch for a decision that comes too late
unfoldable pub lapse : Uuid → Operation → ℕ → ℕ → Uuid → Tx Submission
unfolding insert_audit_event
lapse id op expires now event_id = do
  modify (update_status id OperationStatus.expired now op)
  insert_audit_event (event id op EventType.approval_expired (of_expiry expires) now event_id)
  pure lapsed

-- the branch for a decision in time, on the binding that the approver saw
unfoldable pub decide_bound :
    ApprovalCommand → ApprovalBinding → Uuid → Operation → ℕ → Uuid → Tx Submission
unfolding record_decision
decide_bound command expected approval_id op now event_id = do
  binding ← lift (current_binding op.request_payload)
  lift (raise_if (differs expected binding) approval_snapshot_mismatch)
  r ←
      record_decision approval_id command op
        (approval_row command op.approval_cycle now (inventory_values binding) (some binding)
          (some binding.subject_evidence_id))
        now event_id
  pure (recorded r)

unfoldable pub submit_bound : ApprovalCommand → ApprovalBinding → Uuid → ℕ → Uuid → Tx Submission
unfolding locked_operation require_undecided lapse decide_bound
submit_bound command expected approval_id now event_id = do
  op ← query (locked_operation command.operation_id)
  query (require_undecided command.operation_id op)
  expires ← lift (expiry_of command.operation_id op.approval_expires_at)
  elim (leb expires now) [
    | true ↦ lapse command.operation_id op expires now event_id
    | false ↦ decide_bound command expected approval_id op now event_id
  ]

-- after the transaction: an expiry is committed, and raised all the same
abbrev pub outcome : Result Submission × Db → Result ApprovalRecord × Db
outcome (ok (recorded r), db) = (ok r, db)
outcome (ok lapsed, db) = (err Error.approval_expired, db)
outcome (err e, db) = (err e, db)

unfoldable pub submit_bound_once :
    ApprovalCommand → ApprovalBinding → DateTime → Uuid → Uuid → Db → Result ApprovalRecord × Db
unfolding commit
submit_bound_once command expected now_at approval_id event_id db = elim (require_timezone now_at) [
  | err e ↦ (err e, db)
  | ok now ↦ outcome (commit (submit_bound command expected approval_id now event_id) db)
]
