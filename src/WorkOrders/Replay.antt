-- ===== src/WorkOrders/Replay.antt =====
-- A second request for a work order.
use opercerta.Common.{
  ◌≡◌, refl, true, some, arith, decide, ==_iff, String-discrete, inl, inr, Option-cases,
  if◌then◌else◌,
}
use opercerta.Domain.Errors.{Uuid, ok, err, idempotency_conflict}
use opercerta.Domain.Values.{JsonObject, Digest}
use opercerta.Store.Table.{get, insert, get-update, find_row}
use opercerta.Store.Schema.{Operation, WorkOrder, Db}
use opercerta.Operations.Transition.{Stamp, locked_operation}
use opercerta.WorkOrders.{
  WorkOrderWriteResult, find_existing, derive_idempotency_key, counted, create_or_get_once,
}
use opercerta.WorkOrders.Rows.{Created, Replayed, create_or_get_once-ok}

-- with an order on record nothing but its payload's hash is looked at
existing_lem :
    (id : Uuid) (payload : JsonObject) (digest : Digest) (k w : Uuid) (at : Stamp) (db : Db)
    (op : Operation) (x : WorkOrder)
    → get id db.operations ≡ some op
    → find_existing (derive_idempotency_key id) db.work_orders ≡ some (w, x)
    → create_or_get_once id payload digest k at db ≡ (
        if decide (String-discrete x.payload_hash digest)
        then ok (record { id = w; work_order = x; replayed = true }, db)
        else err (idempotency_conflict id))
unfolding create_or_get_once locked_operation
existing_lem id payload digest k w at db op x found existing = ground arith

-- what is on record after a request that succeeded
record OnRecord (id : Uuid) (digest : Digest) (db' : Db) (r : WorkOrderWriteResult) : Type 0 where
  pub op : Operation
  pub found : get id db'.operations ≡ some op
  pub existing :
      find_existing (derive_idempotency_key id) db'.work_orders ≡ some (r.id, r.work_order)
  pub hash : r.work_order.payload_hash ≡ digest

module _ (id : Uuid) (payload : JsonObject) (digest : Digest) (k : Uuid) (at : Stamp) (db db' : Db)
    (r : WorkOrderWriteResult) where
  Created-OnRecord : Created id payload digest k at db db' r → OnRecord id digest db' r
  unfolding find_existing insert find_row
  Created-OnRecord m = record {
    op = counted at.now m.op m.op;
    found = rw (m.rows, get-update) (ground (arith, ==_iff id id, m.found));
    existing = rw (m.rows, m.returned) (ground (arith, ==_iff id id));
    hash = rw m.returned refl;
  }

  Replayed-OnRecord :
      (op : Operation)
      → get id db.operations ≡ some op
      → Replayed id digest db db' r
      → OnRecord id digest db' r
  Replayed-OnRecord op found m = record {
    op = op;
    found = rw m.rows found;
    existing = rw (m.rows, m.returned) m.existing;
    hash = rw m.returned m.same_payload;
  }

  on_record : create_or_get_once id payload digest k at db ≡ ok (r, db') → OnRecord id digest db' r
  on_record h = elim (create_or_get_once-ok id payload digest k at db db' r h) [
    | inl m ↦ Created-OnRecord m
    | inr m ↦ elim (Option-cases (get id db.operations)) [
      | inl e ↦ absurd (unfold create_or_get_once in ground arith)
      | inr (op, found) ↦ Replayed-OnRecord op found m
    ]
  ]

  -- After a request for a work order that succeeded, any further request for the operation
  -- leaves the rows alone: with the same hash of the payload it returns the same order as
  -- replayed, and with another it raises a conflict.
  pub create_or_get_once-again :
      (payload' : JsonObject) (digest' : Digest) (k' : Uuid) (at' : Stamp)
      → create_or_get_once id payload digest k at db ≡ ok (r, db')
      → create_or_get_once id payload' digest' k' at' db' ≡ (
          if decide (String-discrete digest digest')
          then ok (record { id = r.id; work_order = r.work_order; replayed = true }, db')
          else err (idempotency_conflict id))
  create_or_get_once-again payload' digest' k' at' h =
      let m = on_record h in
      rw
        (
          existing_lem id payload' digest' k' r.id at' db' m.op r.work_order m.found m.existing,
          m.hash,
        )
        refl
