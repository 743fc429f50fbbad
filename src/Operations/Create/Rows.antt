-- ===== src/Operations/Create/Rows.antt =====
-- What a `create` that returned has checked and written.
use opercerta.Common.{ℕ, ◌≡◌, false, Option, none, some, ◌∷◌, arith}
use opercerta.Domain.Errors.{Uuid, ok}
use opercerta.Domain.Contracts.{OperationRequest}
use opercerta.Store.Table.{insert}
use opercerta.Store.Schema.{AuditEvent, operation_received, of_request, Db}
use opercerta.Store.Tx.{has_sequence}
use opercerta.Operations.Transition.{Stamp}
use opercerta.Operations.Create.{create, check_trigger, claim, new_operation}

abbrev pub received_event : OperationRequest → Uuid → Stamp → AuditEvent
received_event request id at = record {
  id = at.event_id;
  operation_id = id;
  sequence = 1;
  event_type = operation_received;
  payload = of_request request;
  created_at = at.now;
}

abbrev pub created_db : OperationRequest → Uuid → Stamp → Db → Db
created_db request id at db = claim request.trigger_signal_id id at.now (record db {
  operations = insert id (new_operation request id at.now) db.operations;
  audit_events = received_event request id at ∷ db.audit_events;
})

pub create-ok :
    (request : OperationRequest) (id : Uuid) (at : Stamp) (db db' : Db) (r : Uuid)
    → create request id at db ≡ ok (r, db')
    → (r ≡ id)
      × (check_trigger request request.trigger_signal_id db ≡ ok tt)
      × (has_sequence id 1 db.audit_events ≡ false)
      × (db' ≡ created_db request id at db)
unfolding create
create-ok request id at db db' r h = ground arith

-- the claim of a signal touches the signals alone
pub claim_tables :
    (t : Option Uuid) (id : Uuid) (now : ℕ) (db : Db)
    → ((claim t id now db).operations ≡ db.operations)
      × ((claim t id now db).approvals ≡ db.approvals)
      × ((claim t id now db).work_orders ≡ db.work_orders)
      × ((claim t id now db).audit_events ≡ db.audit_events)
claim_tables none id now db = ground arith
claim_tables (some s) id now db = ground arith

-- a new operation touches neither the approvals nor the work orders
pub created_tables :
    (request : OperationRequest) (id : Uuid) (at : Stamp) (db : Db)
    → ((created_db request id at db).operations
        ≡ insert id (new_operation request id at.now) db.operations)
      × ((created_db request id at db).approvals ≡ db.approvals)
      × ((created_db request id at db).work_orders ≡ db.work_orders)
created_tables request id at db =
    let (operations, approvals, work_orders, _) =
      claim_tables request.trigger_signal_id id at.now (record db {
        operations = insert id (new_operation request id at.now) db.operations;
        audit_events = received_event request id at ∷ db.audit_events;
      }) in
    (operations, approvals, work_orders)
