-- ===== src/Approvals/Rows.antt =====
-- What the transactions of the approval repository that committed have checked and written.
use opercerta.Common.{ℕ, ◌≡◌, inl, inr, true, false, none, some, ◌∷◌, leb, arith, Option-cases}
use opercerta.Domain.Status.{OperationStatus}
use opercerta.Domain.Errors.{Uuid, ok, Result-cases}
use opercerta.Domain.Scenarios.{ApprovalBinding}
use opercerta.Store.Table.{get, insert, update}
use opercerta.Store.Schema.{Operation, Approval, EventType, of_decision, of_expiry, Db}
use opercerta.Operations.Transition.{Stamp}
use opercerta.Operations.Snapshots.{current_binding, differs}
use opercerta.Approvals.{
  ApprovalCommand, ApprovalRecord, recorded, lapsed, find_approval, is_pending_status, set_status,
  event, approval_row, approval_record, inventory_values, submit_once, submit_bound,
}

-- the rows after a decision
abbrev pub decided_db : Uuid → ApprovalCommand → Operation → Approval → ℕ → Uuid → Db → Db
decided_db approval_id command op row now event_id db = record db {
  approvals = insert approval_id row db.approvals;
  operations =
      update command.operation_id (set_status OperationStatus.resuming now op) db.operations;
  audit_events =
      event command.operation_id op EventType.approval_recorded
        (of_decision approval_id command.decision op.approval_cycle) now event_id
      ∷ db.audit_events;
}

-- the rows after a decision that came too late
abbrev pub lapsed_db : Uuid → Operation → ℕ → ℕ → Uuid → Db → Db
lapsed_db id op expires now event_id db = record db {
  operations = update id (set_status OperationStatus.expired now op) db.operations;
  audit_events =
      event id op EventType.approval_expired (of_expiry expires) now event_id ∷ db.audit_events;
}

-- a decision was open, and is recorded as `row`
pub record Decided (command : ApprovalCommand) (approval_id : Uuid) (now : ℕ) (event_id : Uuid)
    (db db' : Db) (r : ApprovalRecord) : Type 0 where
  pub op : Operation
  pub row : Approval
  pub found : get command.operation_id db.operations ≡ some op
  pub undecided : find_approval command.operation_id op.approval_cycle db.approvals ≡ none
  pub pending : is_pending_status op.status ≡ true
  pub of_operation : row.operation_id ≡ command.operation_id
  pub of_cycle : row.approval_cycle ≡ op.approval_cycle
  pub of_decision : row.decision ≡ some command.decision
  pub returned : r ≡ approval_record approval_id command op.approval_cycle now
  pub rows : db' ≡ decided_db approval_id command op row now event_id db

module _ (command : ApprovalCommand) (approval_id : Uuid) (db db' : Db) where
  submit_once_found :
      (at : Stamp) (r : ApprovalRecord) (op : Operation)
      → get command.operation_id db.operations ≡ some op
      → submit_once command approval_id at db ≡ ok (r, db')
      → Decided command approval_id at.now at.event_id db db' r
  unfolding submit_once
  submit_once_found at r op found h = record {
    op = op;
    row = approval_row command op.approval_cycle at.now none none none;
    found = found;
    undecided = ground arith;
    pending = ground arith;
    of_operation = ground arith;
    of_cycle = ground arith;
    of_decision = ground arith;
    returned = ground arith;
    rows = ground arith;
  }

  pub submit_once-ok :
      (at : Stamp) (r : ApprovalRecord)
      → submit_once command approval_id at db ≡ ok (r, db')
      → Decided command approval_id at.now at.event_id db db' r
  submit_once-ok at r h = elim (Option-cases (get command.operation_id db.operations)) [
    | inl e ↦ absurd (unfold submit_once in ground arith)
    | inr (op, found) ↦ submit_once_found at r op found h
  ]

-- a decision was open when its time had run out
pub record Lapsed (command : ApprovalCommand) (now : ℕ) (event_id : Uuid) (db db' : Db)
    : Type 0 where
  pub op : Operation
  pub expires : ℕ
  pub found : get command.operation_id db.operations ≡ some op
  pub pending : is_pending_status op.status ≡ true
  pub expiry : op.approval_expires_at ≡ some expires
  pub late : leb expires now ≡ true
  pub rows : db' ≡ lapsed_db command.operation_id op expires now event_id db

-- a decision in time on the binding that is stored
pub record DecidedBound (command : ApprovalCommand) (expected : ApprovalBinding)
    (approval_id : Uuid) (now : ℕ) (event_id : Uuid) (db db' : Db) (r : ApprovalRecord)
    : Type 0 where
  pub decision : Decided command approval_id now event_id db db' r
  pub binding : ApprovalBinding
  pub expires : ℕ
  pub expiry : decision.op.approval_expires_at ≡ some expires
  pub in_time : leb expires now ≡ false
  pub stored : current_binding decision.op.request_payload ≡ ok binding
  pub same : differs expected binding ≡ false
  pub bound : decision.row.binding_payload ≡ some binding

module _ (command : ApprovalCommand) (expected : ApprovalBinding) (approval_id : Uuid) (now : ℕ)
    (event_id : Uuid) (db db' : Db) where
  module _ (op : Operation) (found : get command.operation_id db.operations ≡ some op) (expires : ℕ)
      (expiry : op.approval_expires_at ≡ some expires) where
    submit_bound_found :
        (r : ApprovalRecord) (binding : ApprovalBinding)
        → current_binding op.request_payload ≡ ok binding
        → submit_bound command expected approval_id now event_id db ≡ ok (recorded r, db')
        → DecidedBound command expected approval_id now event_id db db' r
    unfolding submit_bound
    submit_bound_found r binding stored h = record {
      decision = record {
        op = op;
        row =
            approval_row command op.approval_cycle now (inventory_values binding) (some binding)
              (some binding.subject_evidence_id);
        found = found;
        undecided = ground arith;
        pending = ground arith;
        of_operation = ground arith;
        of_cycle = ground arith;
        of_decision = ground arith;
        returned = ground arith;
        rows = ground arith;
      };
      binding = binding;
      expires = expires;
      expiry = expiry;
      in_time = ground arith;
      stored = stored;
      same = ground arith;
      bound = ground arith;
    }

    submit_bound_late :
        submit_bound command expected approval_id now event_id db ≡ ok (lapsed, db')
        → Lapsed command now event_id db db'
    unfolding submit_bound
    submit_bound_late h = record {
      op = op;
      expires = expires;
      found = found;
      pending = ground arith;
      expiry = expiry;
      late = ground arith;
      rows = ground arith;
    }

  -- A bound submission that records a decision found the operation pending, undecided and in
  -- time, with a valid stored binding that equals the expected one, and wrote the approval with
  -- that binding, the status resuming and the event.
  pub submit_bound-recorded :
      (r : ApprovalRecord)
      → submit_bound command expected approval_id now event_id db ≡ ok (recorded r, db')
      → DecidedBound command expected approval_id now event_id db db' r
  submit_bound-recorded r h = elim (Option-cases (get command.operation_id db.operations)) [
    | inl e ↦ absurd (unfold submit_bound in ground arith)
    | inr (op, found) ↦ elim (Option-cases op.approval_expires_at) [
      | inl e ↦ absurd (unfold submit_bound in ground arith)
      | inr (expires, expiry) ↦ elim (Result-cases (current_binding op.request_payload)) [
        | inr (e, f) ↦ absurd (unfold submit_bound in ground arith)
        | inl (binding, stored) ↦ submit_bound_found op found expires expiry r binding stored h
      ]
    ]
  ]

  pub submit_bound-lapsed :
      submit_bound command expected approval_id now event_id db ≡ ok (lapsed, db')
      → Lapsed command now event_id db db'
  submit_bound-lapsed h = elim (Option-cases (get command.operation_id db.operations)) [
    | inl e ↦ absurd (unfold submit_bound in ground arith)
    | inr (op, found) ↦ elim (Option-cases op.approval_expires_at) [
      | inl e ↦ absurd (unfold submit_bound in ground arith)
      | inr (expires, expiry) ↦ submit_bound_late op found expires expiry h
    ]
  ]
