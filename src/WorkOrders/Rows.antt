-- ===== src/WorkOrders/Rows.antt =====
-- What a `_create_or_get_once` that committed has checked and written.
use opercerta.Common.{
  ◌+◌, ◌≡◌, ◌⊎◌, inl, inr, true, false, none, some, ◌∷◌, arith, String-discrete, decide_iff,
  Option-cases,
}
use opercerta.Domain.Errors.{Uuid, ok}
use opercerta.Domain.Values.{JsonObject, Digest}
use opercerta.Store.Table.{get, insert, update}
use opercerta.Store.Schema.{
  Operation, Approval, WorkOrder, work_order_created, of_created, AuditEvent, Db,
}
use opercerta.Operations.Transition.{Stamp}
use opercerta.WorkOrders.{
  WorkOrderWriteResult, is_authorized, find_existing, find_approved, derive_idempotency_key,
  new_work_order, is_taken, counted, create_or_get_once,
}

abbrev pub created_event : Uuid → Uuid → Digest → Stamp → Operation → AuditEvent
created_event operation_id id digest at op = record {
  id = at.event_id;
  operation_id = operation_id;
  sequence = op.next_audit_sequence + 1;
  event_type = work_order_created;
  payload = of_created id (derive_idempotency_key operation_id) digest;
  created_at = at.now;
}

-- the rows after a new work order
abbrev pub created_db : Uuid → JsonObject → Digest → Uuid → Stamp → Operation → Db → Db
created_db operation_id payload digest id at op db = record db {
  work_orders = insert id (new_work_order operation_id payload digest at.now) db.work_orders;
  operations = update operation_id (counted at.now op) db.operations;
  audit_events = created_event operation_id id digest at op ∷ db.audit_events;
}

-- a work order was written
pub record Created (operation_id : Uuid) (payload : JsonObject) (digest : Digest) (id : Uuid)
    (at : Stamp) (db db' : Db) (r : WorkOrderWriteResult) : Type 0 where
  pub op : Operation
  pub approval_id : Uuid
  pub approval : Approval
  pub found : get operation_id db.operations ≡ some op
  pub missing : find_existing (derive_idempotency_key operation_id) db.work_orders ≡ none
  pub approved :
      find_approved operation_id op.approval_cycle db.approvals ≡ some (approval_id, approval)
  pub authorized : is_authorized op.status ≡ true
  pub free : is_taken (new_work_order operation_id payload digest at.now) db.work_orders ≡ false
  pub returned : r ≡ record {
    id = id;
    work_order = new_work_order operation_id payload digest at.now;
    replayed = false;
  }
  pub rows : db' ≡ created_db operation_id payload digest id at op db

-- the work order on record was returned
pub record Replayed (operation_id : Uuid) (digest : Digest) (db db' : Db) (r : WorkOrderWriteResult)
    : Type 0 where
  pub id : Uuid
  pub work_order : WorkOrder
  pub existing :
      find_existing (derive_idempotency_key operation_id) db.work_orders ≡ some (id, work_order)
  pub same_payload : work_order.payload_hash ≡ digest
  pub returned : r ≡ record { id = id; work_order = work_order; replayed = true }
  pub rows : db' ≡ db

module _ (operation_id : Uuid) (payload : JsonObject) (digest : Digest) (id : Uuid) (at : Stamp)
    (db db' : Db) (r : WorkOrderWriteResult)
    (h : create_or_get_once operation_id payload digest id at db ≡ ok (r, db')) where
  create_or_get_once_new :
      (op : Operation) (approval_id : Uuid) (approval : Approval)
      → get operation_id db.operations ≡ some op
      → find_existing (derive_idempotency_key operation_id) db.work_orders ≡ none
      → find_approved operation_id op.approval_cycle db.approvals ≡ some (approval_id, approval)
      → Created operation_id payload digest id at db db' r
  unfolding create_or_get_once
  create_or_get_once_new op approval_id approval found missing approved = record {
    op = op;
    approval_id = approval_id;
    approval = approval;
    found = found;
    missing = missing;
    approved = approved;
    authorized = ground arith;
    free = ground arith;
    returned = ground arith;
    rows = ground arith;
  }

  create_or_get_once_old :
      (op : Operation) (w : Uuid) (work_order : WorkOrder)
      → get operation_id db.operations ≡ some op
      → find_existing (derive_idempotency_key operation_id) db.work_orders ≡ some (w, work_order)
      → Replayed operation_id digest db db' r
  unfolding create_or_get_once
  create_or_get_once_old op w work_order found existing = record {
    id = w;
    work_order = work_order;
    existing = existing;
    same_payload = ground (arith, decide_iff (String-discrete work_order.payload_hash digest));
    returned = ground arith;
    rows = ground arith;
  }

  -- A request for a work order that succeeds has either written one, for an operation in an
  -- authorized status with an approval in its current cycle and no order before, or returned the
  -- one on record, whose payload has the same hash, and left the rows alone.
  pub create_or_get_once-ok :
      Created operation_id payload digest id at db db' r ⊎ Replayed operation_id digest db db' r
  create_or_get_once-ok = elim (Option-cases (get operation_id db.operations)) [
    | inl e ↦ absurd (unfold create_or_get_once in ground arith)
    | inr (op, found) ↦
        elim (Option-cases (find_existing (derive_idempotency_key operation_id) db.work_orders)) [
          | inr ((w, x), existing) ↦ inr (create_or_get_once_old op w x found existing)
          | inl missing ↦
              elim (Option-cases (find_approved operation_id op.approval_cycle db.approvals)) [
                | inl e ↦ absurd (unfold create_or_get_once in ground arith)
                | inr ((a, x), approved) ↦
                    inl (create_or_get_once_new op a x found missing approved)
              ]
        ]
  ]
