-- ===== src/WorkOrders.antt =====
-- src/opercerta/infrastructure/db/work_order_repository.py: one work order for an operation, however
-- often it is asked for.
pub mod Rows
pub mod Replay
use opercerta.Common.{
  ℕ, ◌+◌, String, String-discrete, Bool, true, false, not, ◌&&◌, ◌||◌, Option, none, some, ◌==◌,
  decide, if◌then◌else◌,
}
use opercerta.Domain.Status.{OperationStatus}
use opercerta.Domain.Errors.{
  Uuid, Error, Result, ok, err, write_not_authorized, idempotency_conflict, integrity_error,
  work_order_not_found, raise_if,
}
use opercerta.Domain.Values.{JsonObject, Digest, Runtime, hash_payload}
use opercerta.Domain.Contracts.{is_none}
use opercerta.Domain.Facts.{approved}
use opercerta.Store.Table.{Table, get, insert, update, find_row}
use opercerta.Store.Schema.{Operation, Approval, WorkOrder, work_order_created, of_created, Db}
use opercerta.Store.Tx.{Tx, lift, query, modify, pure, commit, insert_audit_event, ◌>>=◌, ◌>>◌}
use opercerta.Operations.Transition.{Stamp, locked_operation}
use opercerta.Operations.Locators.{same_decision}

pub record WorkOrderCommand : Type 0 where
  pub operation_id : Uuid
  pub payload : JsonObject

pub record WorkOrderWriteResult : Type 0 where
  pub id : Uuid
  pub work_order : WorkOrder
  pub replayed : Bool

-- `status in AUTHORIZED_STATUSES`
abbrev pub is_authorized : Option OperationStatus → Bool
is_authorized (some OperationStatus.resuming) = true
is_authorized (some OperationStatus.executing) = true
is_authorized (some OperationStatus.verifying) = true
is_authorized _ = false

-- `derive_idempotency_key` of domain/work_orders.py: "work-order:v1:" and the operation's id
abbrev pub derive_idempotency_key : Uuid → Uuid
derive_idempotency_key operation_id = operation_id

-- `_find_existing`
unfoldable pub find_existing : Uuid → Table WorkOrder → Option (Uuid × WorkOrder)
find_existing key work_orders = find_row (λ (w : WorkOrder). w.idempotency_key == key) work_orders

-- the approved decision of a cycle
unfoldable pub find_approved : Uuid → ℕ → Table Approval → Option (Uuid × Approval)
find_approved id cycle approvals =
    find_row
      (λ (a : Approval).
        a.operation_id == id && a.approval_cycle == cycle && same_decision a.decision approved)
      approvals

-- `_existing_result`
abbrev pub existing_result : Uuid → Digest → Uuid × WorkOrder → Result WorkOrderWriteResult
existing_result operation_id digest (id, w) =
    if decide (String-discrete w.payload_hash digest)
    then ok (record { id = id; work_order = w; replayed = true })
    else err (idempotency_conflict operation_id)

abbrev pub new_work_order : Uuid → JsonObject → Digest → ℕ → WorkOrder
new_work_order operation_id payload digest now = record {
  operation_id = operation_id;
  idempotency_key = derive_idempotency_key operation_id;
  payload = payload;
  payload_hash = digest;
  created_at = now;
  updated_at = now;
}

-- the unique constraints on the operation and on the idempotency key
unfoldable pub is_taken : WorkOrder → Table WorkOrder → Bool
is_taken w work_orders = not (
    is_none (
      find_row
        (λ (x : WorkOrder).
          x.operation_id == w.operation_id || x.idempotency_key == w.idempotency_key)
        work_orders))

unfoldable pub insert_work_order : Uuid → WorkOrder → Tx (Unit {0})
unfolding is_taken
insert_work_order id w = do
  query (λ db. raise_if (is_taken w db.work_orders) integrity_error)
  modify (λ db. record db { work_orders = insert id w db.work_orders })

abbrev pub counted : ℕ → Operation → Operation → Operation
counted now op _ = record op { next_audit_sequence = op.next_audit_sequence + 1; updated_at = now }

-- the writes of a new work order
unfoldable pub write_work_order :
    Uuid → JsonObject → Digest → Uuid → Stamp → Operation → Tx WorkOrderWriteResult
unfolding insert_work_order insert_audit_event
write_work_order operation_id payload digest id at op = do
  insert_work_order id (new_work_order operation_id payload digest at.now)
  modify (λ db. record db { operations = update operation_id (counted at.now op) db.operations })
  insert_audit_event (record {
    id = at.event_id;
    operation_id = operation_id;
    sequence = op.next_audit_sequence + 1;
    event_type = work_order_created;
    payload = of_created id (derive_idempotency_key operation_id) digest;
    created_at = at.now;
  })
  pure (record {
    id = id;
    work_order = new_work_order operation_id payload digest at.now;
    replayed = false;
  })

-- `approved is None or status not in AUTHORIZED_STATUSES`
unfoldable pub require_authorized : Uuid → Operation → Db → Result (Unit {0})
require_authorized id op db =
    raise_if
      (is_none (find_approved id op.approval_cycle db.approvals) || not (is_authorized op.status))
      (write_not_authorized id op.status)

abbrev pub get_or_write :
    Option (Uuid × WorkOrder)
    → Uuid
    → JsonObject
    → Digest
    → Uuid
    → Stamp
    → Operation
    → Tx WorkOrderWriteResult
get_or_write (some row) operation_id payload digest id at op =
    lift (existing_result operation_id digest row)
get_or_write none operation_id payload digest id at op = do
  query (require_authorized operation_id op)
  write_work_order operation_id payload digest id at op

-- `_create_or_get_once`
unfoldable pub create_or_get_once :
    Uuid → JsonObject → Digest → Uuid → Stamp → Tx WorkOrderWriteResult
unfolding locked_operation require_authorized write_work_order
create_or_get_once operation_id payload digest id at = do
  op ← query (locked_operation operation_id)
  existing ← query (λ db. ok (find_existing (derive_idempotency_key operation_id) db.work_orders))
  get_or_write existing operation_id payload digest id at op

-- the `except IntegrityError` of `create_or_get`, with what another transaction left behind
abbrev after_integrity_error :
    Uuid → Digest → Option (Uuid × WorkOrder) → Db → Result WorkOrderWriteResult × Db
after_integrity_error id digest none db = (err integrity_error, db)
after_integrity_error id digest (some row) db = (existing_result id digest row, db)

abbrev pub handle_integrity_error :
    Uuid → Digest → Result WorkOrderWriteResult × Db → Result WorkOrderWriteResult × Db
handle_integrity_error id digest (err integrity_error, db) =
    after_integrity_error id digest (find_existing (derive_idempotency_key id) db.work_orders) db
handle_integrity_error id digest (r, db) = (r, db)

unfoldable pub create_or_get :
    Runtime → WorkOrderCommand → Uuid → Stamp → Db → Result WorkOrderWriteResult × Db
unfolding commit
create_or_get py command id at db =
    let digest = hash_payload py command.payload in
    handle_integrity_error command.operation_id digest
      (commit (create_or_get_once command.operation_id command.payload digest id at) db)

-- `get`
unfoldable pub load_work_order : Uuid → Db → Result WorkOrder
load_work_order id db = elim (get id db.work_orders) [
  | some w ↦ ok w
  | none ↦ err work_order_not_found
]
