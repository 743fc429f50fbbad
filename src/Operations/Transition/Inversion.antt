-- ===== src/Operations/Transition/Inversion.antt =====
-- What a `_transition` that returned has found and done.
use opercerta.Common.{
  ◌+◌, ◌≡◌, ◌≢◌, ◌∙◌, ap, Bool, true, false, ◌&&◌, some, ◌∷◌, ◌⊎◌, inl, inr, arith, Option-cases,
}
use opercerta.Domain.Status.{OperationStatus, OperationStatus-discrete}
use opercerta.Domain.Errors.{Uuid, ok, Result-cases}
use opercerta.Domain.Facts.{OperationSnapshot}
use opercerta.Store.Table.{get}
use opercerta.Store.Schema.{Operation, EventPayload, AuditEvent, Db}
use opercerta.Store.Tx.{has_sequence}
use opercerta.Operations.Transition.{
  Transition, Stamp, too_early, proceed, check_due, require_matching_event, write_change, change,
  transition, is_set,
}

-- the event that a transition writes
abbrev pub written_event : Uuid → Transition → Stamp → Operation → EventPayload → AuditEvent
written_event id t at op payload = record {
  id = at.event_id;
  operation_id = id;
  sequence = op.next_audit_sequence + 1;
  event_type = t.event_type;
  payload = payload;
  created_at = at.now;
}

-- the rows after the change
abbrev pub changed_db :
    Uuid → Transition → Stamp → Operation → OperationSnapshot → EventPayload → Db → Db
changed_db id t at op next payload db =
    let db₁ = write_change id t op next at.now db in
    record db₁ { audit_events = written_event id t at op payload ∷ db₁.audit_events }

-- an operation was found and moved to the target
pub record Changed (id : Uuid) (t : Transition) (at : Stamp) (db db' : Db) : Type 0 where
  pub op : Operation
  pub current : OperationStatus
  pub snapshot : OperationSnapshot
  pub next : OperationSnapshot
  pub payload : EventPayload
  pub written : Db
  pub found : get id db.operations ≡ some op
  pub status : op.status ≡ some current
  pub stored : op.request_payload ≡ some snapshot
  pub due : check_due id t.due_at op.approval_expires_at t.payload ≡ ok (proceed payload)
  pub moved : current ≢ t.target
  pub validated : t.transaction_validator db ≡ ok tt
  pub allowed : t.allowed current ≡ true
  pub built : t.snapshot_builder snapshot ≡ ok next
  pub wrote : t.transaction_write db ≡ ok (tt, written)
  pub unambiguous : (is_set t.approval_cycle && t.increment_approval_cycle) ≡ false
  pub unused : has_sequence id (op.next_audit_sequence + 1) written.audit_events ≡ false
  pub rows : db' ≡ changed_db id t at op next payload written

-- the part of `Changed` behind the test for the target status
pub record Advanced (id : Uuid) (t : Transition) (at : Stamp) (op : Operation)
    (current : OperationStatus) (payload : EventPayload) (db db' : Db) : Type 0 where
  pub snapshot : OperationSnapshot
  pub next : OperationSnapshot
  pub written : Db
  pub stored : op.request_payload ≡ some snapshot
  pub validated : t.transaction_validator db ≡ ok tt
  pub allowed : t.allowed current ≡ true
  pub built : t.snapshot_builder snapshot ≡ ok next
  pub wrote : t.transaction_write db ≡ ok (tt, written)
  pub unambiguous : (is_set t.approval_cycle && t.increment_approval_cycle) ≡ false
  pub unused : has_sequence id (op.next_audit_sequence + 1) written.audit_events ≡ false
  pub rows : db' ≡ changed_db id t at op next payload written

module _ (id : Uuid) (t : Transition) (at : Stamp) where
  module _ (op : Operation) (current : OperationStatus) (payload : EventPayload) (db db' : Db)
      (b : Bool) (h : change id t at op current payload db ≡ ok (b, db')) where
    change_built :
        (snapshot next : OperationSnapshot) (written : Db)
        → op.request_payload ≡ some snapshot
        → t.snapshot_builder snapshot ≡ ok next
        → t.transaction_write db ≡ ok (tt, written)
        → (b ≡ true) × Advanced id t at op current payload db db'
    unfolding change
    change_built snapshot next written stored built wrote = (
      ground arith,
      record {
        snapshot = snapshot;
        next = next;
        written = written;
        stored = stored;
        validated = ground arith;
        allowed = ground arith;
        built = built;
        wrote = wrote;
        unambiguous = ground arith;
        unused = ground arith;
        rows = ground arith;
      },
    )

    change-ok : (b ≡ true) × Advanced id t at op current payload db db'
    change-ok = elim (Option-cases op.request_payload) [
      | inl e ↦ absurd (unfold change in ground arith)
      | inr (snapshot, stored) ↦ elim (Result-cases (t.snapshot_builder snapshot)) [
        | inr (e, f) ↦ absurd (unfold change in ground arith)
        | inl (next, built) ↦ elim (Result-cases (t.transaction_write db)) [
          | inr (e, f) ↦ absurd (unfold change in ground arith)
          | inl ((u, written), wrote) ↦ change_built snapshot next written stored built wrote
        ]
      ]
    ]

  -- why a transition that returned `false` has done nothing
  pub data Unchanged (db : Db) : Type 0 where
    -- its due time had not come
    early :
        (op : Operation)
        → get id db.operations ≡ some op
        → check_due id t.due_at op.approval_expires_at t.payload ≡ ok too_early
        → Unchanged db
    -- the operation was in the target status, with the one event on record
    replayed :
        (op : Operation) (payload : EventPayload)
        → get id db.operations ≡ some op
        → op.status ≡ some t.target
        → check_due id t.due_at op.approval_expires_at t.payload ≡ ok (proceed payload)
        → require_matching_event id t.event_type payload db ≡ ok tt
        → Unchanged db

  module _ (db db' : Db) (b : Bool) (h : transition id t at db ≡ ok (b, db')) where
    module _ (op : Operation) (current : OperationStatus) (found : get id db.operations ≡ some op)
        (status : op.status ≡ some current) where
      transition_early :
          check_due id t.due_at op.approval_expires_at t.payload ≡ ok too_early
          → (b ≡ false) × (db' ≡ db)
      unfolding transition
      transition_early due = ground arith

      transition_same :
          (payload : EventPayload)
          → check_due id t.due_at op.approval_expires_at t.payload ≡ ok (proceed payload)
          → current ≡ t.target
          → (b ≡ false) × (db' ≡ db) × (require_matching_event id t.event_type payload db ≡ ok tt)
      unfolding transition
      transition_same payload due same = ground arith

      transition_moved :
          (payload : EventPayload)
          → check_due id t.due_at op.approval_expires_at t.payload ≡ ok (proceed payload)
          → current ≢ t.target
          → change id t at op current payload db ≡ ok (b, db')
      unfolding transition
      transition_moved payload due moved = ground arith

    -- A transition that returns has either returned true, found an allowed status, built the
    -- next snapshot and made exactly the writes of the change, or returned false and left all
    -- rows alone, because it was too early or because the operation was in the target status
    -- with a matching event.
    pub transition-ok :
        ((b ≡ true) × Changed id t at db db') ⊎ ((b ≡ false) × (db' ≡ db) × Unchanged db)
    transition-ok = elim (Option-cases (get id db.operations)) [
      | inl e ↦ absurd (unfold transition in ground arith)
      | inr (op, found) ↦ elim (Option-cases op.status) [
        | inl e ↦ absurd (unfold transition in ground arith)
        | inr (current, status) ↦
            elim (Result-cases (check_due id t.due_at op.approval_expires_at t.payload)) [
              | inr (e, f) ↦ absurd (unfold transition in ground arith)
              | inl (too_early, due) ↦
                  let (no_change, rows) = transition_early op current found status due in
                  inr (no_change, rows, early op found due)
              | inl (proceed payload, due) ↦ elim (OperationStatus-discrete current t.target) [
                | yes same ↦
                    let (no_change, rows, event) =
                      transition_same op current found status payload due same in
                    inr
                      (no_change, rows, replayed op payload found (status ∙ ap some same) due event)
                | no moved ↦
                    let (changed, a) =
                      change-ok op current payload db db' b
                        (transition_moved op current found status payload due moved) in
                    inl (
                      changed,
                      record {
                        op = op;
                        current = current;
                        snapshot = a.snapshot;
                        next = a.next;
                        payload = payload;
                        written = a.written;
                        found = found;
                        status = status;
                        stored = a.stored;
                        due = due;
                        moved = moved;
                        validated = a.validated;
                        allowed = a.allowed;
                        built = a.built;
                        wrote = a.wrote;
                        unambiguous = a.unambiguous;
                        unused = a.unused;
                        rows = a.rows;
                      },
                    )
              ]
            ]
      ]
    ]
