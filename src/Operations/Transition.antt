-- ===== src/Operations/Transition.antt =====
-- `_transition` and the reads under it: `_locked_operation`, `_status`, `_snapshot`,
-- `_require_matching_event`.
pub mod Inversion
use opercerta.Common.{
  ℕ, suc, ◌+◌, ◌≡◌, String, Bool, true, false, not, ◌&&◌, Option, none, some, List, [], ◌∷◌, ◌==◌,
  ltb, decide, ite, if◌then◌else◌,
}
use opercerta.Domain.Status.{OperationStatus, OperationStatus-discrete, is_terminal}
use opercerta.Domain.Errors.{
  Uuid, Error, Result, ok, err, operation_not_found, recovery_state_conflict,
  invalid_operation_snapshot, operation_transition_conflict, value_error, raise_if,
}
use opercerta.Domain.Facts.{OperationSnapshot}
use opercerta.Store.Table.{Table, get, update, update_where}
use opercerta.Store.Schema.{
  Operation, ResultPayload, Signal, SignalStatus, resolved, attention_required, EventType,
  EventType-discrete, EventPayload, EventPayload-discrete, of_expiry, AuditEvent, Db,
}
use opercerta.Store.Tx.{Tx, lift, query, modify, pure, insert_audit_event, ◌>>=◌, ◌>>◌}

-- an optional column of the `UPDATE`: `_UNSET` leaves it alone
pub data Update (A : Type 0) : Type 0 where
  unset : Update A
  to : A → Update A

abbrev pub apply_update : {A : Type 0} → Update A → A → A
apply_update unset old = old
apply_update (to new) old = new

abbrev pub is_set : {A : Type 0} → Update A → Bool
is_set unset = false
is_set (to _) = true

-- the keyword arguments of `_transition`
pub record Transition : Type 0 where
  pub allowed : OperationStatus → Bool
  pub target : OperationStatus
  pub event_type : EventType
  pub payload : EventPayload
  pub snapshot_builder : OperationSnapshot → Result OperationSnapshot
  pub transaction_validator : Db → Result (Unit {0})
  pub transaction_write : Tx (Unit {0})
  pub result_payload : Update (Option ResultPayload)
  pub error_code : Update (Option String)
  pub approval_expires_at : Update (Option ℕ)
  pub approval_cycle : Update ℕ
  pub increment_approval_cycle : Bool
  pub due_at : Option ℕ

-- the time of the change and the id of its event
pub record Stamp : Type 0 where
  pub now : ℕ
  pub event_id : Uuid

unfoldable pub locked_operation : Uuid → Db → Result Operation
locked_operation id db = elim (get id db.operations) [
  | some op ↦ ok op
  | none ↦ err (operation_not_found id)
]

unfoldable pub known_status : Uuid → Option OperationStatus → Result OperationStatus
known_status id (some s) = ok s
known_status id none = err (recovery_state_conflict id "unknown_operation_status")

unfoldable pub parse_snapshot : Uuid → Option OperationSnapshot → Result OperationSnapshot
parse_snapshot id (some s) = ok s
parse_snapshot id none = err (invalid_operation_snapshot id "request_payload_failed_validation")

-- the payloads of an operation's events of one type
unfoldable pub payloads : Uuid → EventType → List AuditEvent → List EventPayload
payloads id t [] = []
payloads id t (e ∷ es) =
    if e.operation_id == id && decide (EventType-discrete e.event_type t)
    then e.payload ∷ payloads id t es
    else payloads id t es

abbrev is_single : EventPayload → List EventPayload → Bool
is_single p (q ∷ []) = decide (EventPayload-discrete q p)
is_single p _ = false

unfoldable pub require_matching_event : Uuid → EventType → EventPayload → Db → Result (Unit {0})
unfolding payloads
require_matching_event id t p db =
    raise_if (not (is_single p (payloads id t db.audit_events)))
      (recovery_state_conflict id "target_state_event_mismatch")

-- the `due_at` block: nothing is to be done yet, or the payload to go on with
pub data Due : Type 0 where
  too_early : Due
  proceed : EventPayload → Due

abbrev due_by : Uuid → ℕ → Option ℕ → Result Due
due_by id due none = err (recovery_state_conflict id "approval_expiry_missing")
due_by id due (some expires) =
    ok (if ltb due expires then too_early else proceed (of_expiry expires))

unfoldable pub check_due : Uuid → Option ℕ → Option ℕ → EventPayload → Result Due
check_due id none expires payload = ok (proceed payload)
check_due id (some due) expires payload = due_by id due expires

-- `signal_status_for_operation_terminal` of domain/signals.py
abbrev pub signal_status_for_operation_terminal : OperationStatus → Option SignalStatus
signal_status_for_operation_terminal OperationStatus.completed = some resolved
signal_status_for_operation_terminal OperationStatus.rejected = some resolved
signal_status_for_operation_terminal OperationStatus.aborted = some attention_required
signal_status_for_operation_terminal OperationStatus.expired = some attention_required
signal_status_for_operation_terminal OperationStatus.failed = some attention_required
signal_status_for_operation_terminal _ = none

abbrev pub is_linked : Uuid → Signal → Bool
is_linked id s = elim s.operation_id [ none ↦ false | some j ↦ j == id ]

abbrev pub close_signal : SignalStatus → ℕ → Signal → Signal
close_signal resolved now s = record s {
  status = resolved;
  updated_at = now;
  resolved_at = some now;
}
close_signal status now s = record s { status = status; updated_at = now }

abbrev close_linked : Option SignalStatus → Uuid → ℕ → Table Signal → Table Signal
close_linked none id now signals = signals
close_linked (some s) id now signals = update_where (is_linked id) (close_signal s now) signals

-- the `UPDATE operations`
abbrev pub next_cycle : Transition → ℕ → ℕ
next_cycle t old =
    if is_set t.approval_cycle
    then apply_update t.approval_cycle old
    else if t.increment_approval_cycle
    then old + 1
    else old

abbrev pub changed_operation : Transition → OperationSnapshot → ℕ → Operation → Operation
changed_operation t snapshot now op = record op {
  status = some t.target;
  next_audit_sequence = op.next_audit_sequence + 1;
  request_payload = some snapshot;
  updated_at = now;
  result_payload = apply_update t.result_payload op.result_payload;
  error_code = apply_update t.error_code op.error_code;
  approval_expires_at = apply_update t.approval_expires_at op.approval_expires_at;
  approval_cycle = next_cycle t op.approval_cycle;
}

abbrev pub write_change : Uuid → Transition → Operation → OperationSnapshot → ℕ → Db → Db
write_change id t op snapshot now db = record db {
  operations = update id (λ _. changed_operation t snapshot now op) db.operations;
  operational_signals =
      close_linked (signal_status_for_operation_terminal t.target) id now db.operational_signals;
}

-- the part of the body behind the test for the target status
unfoldable pub change :
    Uuid → Transition → Stamp → Operation → OperationStatus → EventPayload → Tx Bool
unfolding parse_snapshot insert_audit_event
change id t at op current payload = do
  query t.transaction_validator
  lift (raise_if (not (t.allowed current)) (operation_transition_conflict id current t.target))
  snapshot ← lift (parse_snapshot id op.request_payload)
  next ← lift (t.snapshot_builder snapshot)
  t.transaction_write
  lift (
      raise_if (is_set t.approval_cycle && t.increment_approval_cycle)
        (value_error "approval cycle update is ambiguous"))
  modify (write_change id t op next at.now)
  insert_audit_event (record {
    id = at.event_id;
    operation_id = id;
    sequence = op.next_audit_sequence + 1;
    event_type = t.event_type;
    payload = payload;
    created_at = at.now;
  })
  pure true

-- an operation in the target status is left alone, if the event on record is the one to be written
unfoldable pub replay_or_change :
    Uuid → Transition → Stamp → Operation → OperationStatus → EventPayload → Tx Bool
unfolding change require_matching_event
replay_or_change id t at op current payload =
    ite (OperationStatus-discrete current t.target)
      (do query (require_matching_event id t.event_type payload); pure false)
      (change id t at op current payload)

abbrev when_due : Uuid → Transition → Stamp → Operation → OperationStatus → Due → Tx Bool
when_due id t at op current too_early = pure false
when_due id t at op current (proceed payload) = replay_or_change id t at op current payload

-- the whole body
unfoldable pub transition : Uuid → Transition → Stamp → Tx Bool
unfolding locked_operation known_status check_due replay_or_change
transition id t at = do
  op ← query (locked_operation id)
  current ← lift (known_status id op.status)
  due ← lift (check_due id t.due_at op.approval_expires_at t.payload)
  when_due id t at op current due
