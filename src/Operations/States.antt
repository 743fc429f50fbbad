-- ===== src/Operations/States.antt =====
-- infrastructure/db/operation_state_repository.py: the `mark_` methods that the reliability graph
-- calls. They check neither the approval nor the work order that they are given, and update no
-- signal.
pub mod Inversion
use opercerta.Common.{ℕ, ◌+◌, ◌==◌, Bool, true, false, Option, none, some, ite}
use opercerta.Domain.Status.{OperationStatus, OperationStatus-discrete}
use opercerta.Domain.Errors.{Uuid, Result, ok, err, raise_if, operation_transition_conflict}
use opercerta.Store.Table.{update}
use opercerta.Store.Schema.{
  Operation, EventType, EventPayload, of_version, of_approval, of_work_order, Db,
}
use opercerta.Store.Tx.{Tx, lift, query, modify, pure, insert_audit_event, ◌>>=◌, ◌>>◌}
use opercerta.Operations.Transition.{Stamp, locked_operation, known_status, require_matching_event}

-- the keyword arguments of `_transition`; every set of allowed statuses has one element
pub record StateTransition : Type 0 where
  pub allowed : OperationStatus
  pub target : OperationStatus
  pub event_type : EventType
  pub payload : EventPayload

pub record OperationTransitionResult : Type 0 where
  pub operation_id : Uuid
  pub status : OperationStatus
  pub changed : Bool
  pub audit_sequence : Option ℕ

abbrev pub cycle_of : OperationStatus → ℕ → ℕ
cycle_of OperationStatus.awaiting_approval old = 1
cycle_of _ old = old

abbrev pub moved_operation : StateTransition → ℕ → Operation → Operation
moved_operation t now op = record op {
  status = some t.target;
  next_audit_sequence = op.next_audit_sequence + 1;
  updated_at = now;
  approval_cycle = cycle_of t.target op.approval_cycle;
}

abbrev unchanged : Uuid → StateTransition → OperationTransitionResult
unchanged id t = record {
  operation_id = id;
  status = t.target;
  changed = false;
  audit_sequence = none;
}

unfoldable pub move :
    Uuid → StateTransition → Stamp → Operation → OperationStatus → Tx OperationTransitionResult
unfolding insert_audit_event
move id t at op current = do
  lift (
      ite (OperationStatus-discrete current t.allowed) (ok tt)
        (err (operation_transition_conflict id current t.target)))
  modify
      (λ db. record db { operations = update id (λ _. moved_operation t at.now op) db.operations })
  insert_audit_event (record {
    id = at.event_id;
    operation_id = id;
    sequence = op.next_audit_sequence + 1;
    event_type = t.event_type;
    payload = t.payload;
    created_at = at.now;
  })
  pure (record {
    operation_id = id;
    status = t.target;
    changed = true;
    audit_sequence = some (op.next_audit_sequence + 1);
  })

-- `_transition`
unfoldable pub state_transition : Uuid → StateTransition → Stamp → Tx OperationTransitionResult
state_transition id t at = do
  op ← query (locked_operation id)
  current ← lift (known_status id op.status)
  ite (OperationStatus-discrete current t.target)
      (do query (require_matching_event id t.event_type t.payload); pure (unchanged id t))
      (move id t at op current)

-- the methods, with the id that they are given
pub data StateCall : Type 0 where
  mark_awaiting_approval : StateCall
  mark_executing mark_verifying mark_completed mark_rejected : Uuid → StateCall

abbrev pub arguments : StateCall → StateTransition
arguments mark_awaiting_approval = record {
  allowed = OperationStatus.received;
  target = OperationStatus.awaiting_approval;
  event_type = EventType.approval_requested;
  payload = of_version 1;
}
arguments (mark_executing approval_id) = record {
  allowed = OperationStatus.resuming;
  target = OperationStatus.executing;
  event_type = EventType.execution_started;
  payload = of_approval approval_id;
}
arguments (mark_verifying work_order_id) = record {
  allowed = OperationStatus.executing;
  target = OperationStatus.verifying;
  event_type = EventType.verification_started;
  payload = of_work_order work_order_id;
}
arguments (mark_completed work_order_id) = record {
  allowed = OperationStatus.verifying;
  target = OperationStatus.completed;
  event_type = EventType.operation_completed;
  payload = of_work_order work_order_id;
}
arguments (mark_rejected approval_id) = record {
  allowed = OperationStatus.resuming;
  target = OperationStatus.rejected;
  event_type = EventType.operation_rejected;
  payload = of_approval approval_id;
}

unfoldable pub mark : StateCall → Uuid → Stamp → Tx OperationTransitionResult
mark c id at = state_transition id (arguments c) at
