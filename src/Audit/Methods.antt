-- ===== src/Audit/Methods.antt =====
-- The audit trail and the calls that write an event.
use opercerta.Common.{
  ℕ, ◌+◌, ◌≡◌, refl, Bool, none, some, ◌∷◌, ◌==◌, ==_iff, arith, inl, inr, if◌then◌else◌,
}
use opercerta.Domain.Errors.{Uuid, ok}
use opercerta.Domain.Contracts.{OperationRequest}
use opercerta.Domain.Values.{JsonObject, Digest}
use opercerta.Domain.Status.{OperationStatus}
use opercerta.Store.Table.{get, update, get-insert, get-update}
use opercerta.Store.Schema.{
  Operation, AuditEvent, approval_recorded, approval_expired, of_decision, of_expiry, Db,
}
use opercerta.Operations.Transition.{Transition, Stamp, transition, changed_operation}
use opercerta.Operations.Transition.Inversion.{written_event, transition-ok}
use opercerta.Operations.Frame.{WritesEvidence, operations_after}
use opercerta.Operations.Create.{create, new_operation}
use opercerta.Operations.Create.Rows.{created_db, received_event, create-ok, claim_tables}
use opercerta.Approvals.{ApprovalCommand, ApprovalRecord, set_status, event}
use opercerta.Approvals.Rows.{decided_db, lapsed_db, Decided, Lapsed}
use opercerta.WorkOrders.{WorkOrderWriteResult, create_or_get_once, counted}
use opercerta.WorkOrders.Rows as WorkOrders
use opercerta.WorkOrders.Rows.{create_or_get_once-ok, created_event}
use opercerta.Audit.{IsDense, IsDense-append}

abbrev pub IsDenseDb : Db → Type 0
IsDenseDb db = IsDense db.operations db.audit_events

-- A change of one row to the next number, with the event of that number.
pub append-IsDenseDb :
    (db db' : Db) (id : Uuid) (op op' : Operation) (e : AuditEvent)
    → get id db.operations ≡ some op
    → ((j : Uuid) → get j db'.operations ≡ (if id == j then some op' else get j db.operations))
    → op'.next_audit_sequence ≡ op.next_audit_sequence + 1
    → e.operation_id ≡ id
    → e.sequence ≡ op.next_audit_sequence + 1
    → db'.audit_events ≡ e ∷ db.audit_events
    → IsDenseDb db
    → IsDenseDb db'
append-IsDenseDb db db' id op op' e found rows next same number events d = rw events (
    IsDense-append db.operations db'.operations db.audit_events e
      (λ j. ground (arith, rows j, ==_iff id j)) (ground arith) d)

-- the first event of an operation that was not there
create-IsDenseDb_row :
    (db db' : Db) (id : Uuid) (op' : Operation) (e : AuditEvent)
    → get id db.operations ≡ none
    → ((j : Uuid) → get j db'.operations ≡ (if id == j then some op' else get j db.operations))
    → op'.next_audit_sequence ≡ 1
    → e.operation_id ≡ id
    → e.sequence ≡ 1
    → db'.audit_events ≡ e ∷ db.audit_events
    → IsDenseDb db
    → IsDenseDb db'
create-IsDenseDb_row db db' id op' e new rows next same number events d = rw events (
    IsDense-append db.operations db'.operations db.audit_events e
      (λ j. ground (arith, rows j, ==_iff id j)) (ground arith) d)

pub get-update_to :
    (db : Db) (id : Uuid) (op op' : Operation)
    → get id db.operations ≡ some op
    → (j : Uuid)
    → get j (update id (λ _. op') db.operations)
      ≡ (if id == j then some op' else get j db.operations)
get-update_to db id op op' found j = rw get-update (ground (arith, ==_iff id j, found))

pub transition-IsDenseDb :
    (id : Uuid) (t : Transition) (at : Stamp) (db db' : Db) (b : Bool)
    → WritesEvidence t.transaction_write
    → transition id t at db ≡ ok (b, db')
    → IsDenseDb db
    → IsDenseDb db'
transition-IsDenseDb id t at db db' b frame h d = elim (transition-ok id t at db db' b h) [
  | inr (_, same, _) ↦ rw same d
  | inl (_, c) ↦
      append-IsDenseDb db db' id c.op (changed_operation t c.next at.now c.op)
        (written_event id t at c.op c.payload) c.found (operations_after id t at db db' frame c)
        refl refl refl (ground (arith, c.rows, frame.at db c.written c.wrote)) d
]

module _ (db db' : Db) where
  pub create-IsDenseDb :
      (request : OperationRequest) (id r : Uuid) (at : Stamp)
      → get id db.operations ≡ none
      → create request id at db ≡ ok (r, db')
      → IsDenseDb db
      → IsDenseDb db'
  create-IsDenseDb request id r at new h d =
      let (_, _, _, rows) = create-ok request id at db db' r h in
      let kept = claim_tables request.trigger_signal_id id at.now in
      rw rows (
        create-IsDenseDb_row db (created_db request id at db) id (new_operation request id at.now)
          (received_event request id at) new (λ j. rw (kept _).0 (get-insert j id _ _)) refl refl
          refl (rw (kept _).3) d)

  pub Decided-IsDenseDb :
      {command : ApprovalCommand} {approval_id : Uuid} {now : ℕ} {event_id : Uuid}
      {r : ApprovalRecord}
      → Decided command approval_id now event_id db db' r
      → IsDenseDb db
      → IsDenseDb db'
  Decided-IsDenseDb {command} {approval_id} {now} {event_id} c d = rw c.rows (
      append-IsDenseDb db (decided_db approval_id command c.op c.row now event_id db)
        command.operation_id c.op (set_status OperationStatus.resuming now c.op c.op)
        (event command.operation_id c.op approval_recorded
          (of_decision approval_id command.decision c.op.approval_cycle) now event_id)
        c.found (get-update_to db command.operation_id c.op _ c.found) refl refl refl refl d)

  pub Lapsed-IsDenseDb :
      {command : ApprovalCommand} {now : ℕ} {event_id : Uuid}
      → Lapsed command now event_id db db'
      → IsDenseDb db
      → IsDenseDb db'
  Lapsed-IsDenseDb {command} {now} {event_id} c d = rw c.rows (
      append-IsDenseDb db (lapsed_db command.operation_id c.op c.expires now event_id db)
        command.operation_id c.op (set_status OperationStatus.expired now c.op c.op)
        (event command.operation_id c.op approval_expired (of_expiry c.expires) now event_id)
        c.found (get-update_to db command.operation_id c.op _ c.found) refl refl refl refl d)

  pub create_or_get_once-IsDenseDb :
      (operation_id : Uuid) (payload : JsonObject) (digest : Digest) (id : Uuid) (at : Stamp)
      (r : WorkOrderWriteResult)
      → create_or_get_once operation_id payload digest id at db ≡ ok (r, db')
      → IsDenseDb db
      → IsDenseDb db'
  create_or_get_once-IsDenseDb operation_id payload digest id at r h d =
      elim (create_or_get_once-ok operation_id payload digest id at db db' r h) [
        | inr c ↦ rw c.rows d
        | inl c ↦ rw c.rows (
            append-IsDenseDb db (WorkOrders.created_db operation_id payload digest id at c.op db)
              operation_id c.op (counted at.now c.op c.op)
              (created_event operation_id id digest at c.op) c.found
              (get-update_to db operation_id c.op _ c.found) refl refl refl refl d)
      ]
