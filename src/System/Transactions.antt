-- ===== src/System/Transactions.antt =====
-- The invariant of the rows and each kind of transaction.
use opercerta.Common.{ℕ, ◌≡◌, refl, Bool, none, arith, inl, inr}
use opercerta.Domain.Status.{OperationStatus}
use opercerta.Domain.Errors.{Uuid, ok}
use opercerta.Domain.Values.{JsonObject, Digest}
use opercerta.Domain.Contracts.{OperationRequest}
use opercerta.Domain.Facts.{EvidenceContent}
use opercerta.Store.Table.{Table, get, get-insert}
use opercerta.Store.Schema.{Approval, Db}
use opercerta.Operations.Transition.{Stamp, changed_operation}
use opercerta.Operations.Transition.Inversion.{transition-ok}
use opercerta.Operations.Calls.{Call, run, IsCall-WritesEvidence, run-IsCall}
use opercerta.Operations.Frame.{operations_after, approvals_after, work_orders_after}
use opercerta.Operations.Create.{create, new_operation}
use opercerta.Operations.Create.Rows.{create-ok, created_tables}
use opercerta.Approvals.{ApprovalCommand, find_approval, set_status}
use opercerta.Approvals.Rows.{Lapsed}
use opercerta.WorkOrders.{WorkOrderWriteResult, create_or_get_once, counted}
use opercerta.WorkOrders.Rows.{create_or_get_once-ok}
use opercerta.Audit.Methods.{
  transition-IsDenseDb, create-IsDenseDb, Lapsed-IsDenseDb, create_or_get_once-IsDenseDb,
  get-update_to,
}
use opercerta.Cycles.{IsLawful}
use opercerta.Cycles.Transitions.{Changed-IsLawful}
use opercerta.Cycles.Decisions.{expired-IsLawful, counted-IsLawful}
use opercerta.Cycles.Unique.{NoClash-IsUnique}
use opercerta.Signals.Keys.{SameKeys-IsKeyed}
use opercerta.Signals.Kept.{Changed-SameKeys, create-SameKeys}
use opercerta.System.Invariant.{IsConsistent}
use opercerta.System.Preservation.{one_row-IsConsistent}
use opercerta.System.Orders.{AllApproved-Created}

new-IsLawful :
    (approvals : Table Approval) (request : OperationRequest) (id : Uuid) (now : ℕ)
    → ((n : ℕ) → find_approval id n approvals ≡ none)
    → IsLawful approvals id (new_operation request id now)
new-IsLawful approvals request id now none_of = record {
  early = ground arith;
  pending_cycle = ground arith;
  undecided = ground arith;
  expiry = ground arith;
  decided = ground arith;
  approval = ground arith;
  rejection = ground arith;
  future = λ n _. none_of n;
}

module _ (db db' : Db) (c : IsConsistent db) where
  -- `create`
  pub create-IsConsistent :
      (request : OperationRequest) (id r : Uuid) (at : Stamp)
      → get id db.operations ≡ none
      → create request id at db ≡ ok (r, db')
      → IsConsistent db'
  create-IsConsistent request id r at new h =
      let (_, _, _, rows) = create-ok request id at db db' r h in
      let (operations, approvals, orders) = created_tables request id at db in
      one_row-IsConsistent db.operations db'.operations id (new_operation request id at.now)
        (λ j. rw (rows, operations) (get-insert j id _ _)) db db' refl refl
        (rw (rows, approvals) refl) (create-IsDenseDb db db' request id r at new h c.dense)
        (new-IsLawful db.approvals request id at.now (λ n. c.owned id n new))
        (rw (rows, orders) c.orders)
        (rw rows (SameKeys-IsKeyed (create-SameKeys request id at db) c.keyed)) c

  -- a method of the operations
  pub run-IsConsistent :
      (hash_json : EvidenceContent → Digest) (call : Call) (id : Uuid) (at : Stamp) (b : Bool)
      → run hash_json call id at db ≡ ok (b, db')
      → IsConsistent db'
  run-IsConsistent hash_json call id at b h =
      let (t, is_call, e) = run-IsCall hash_json call id at db db' b h in
      let frame = IsCall-WritesEvidence hash_json id is_call in
      elim (transition-ok id t at db db' b e) [
        | inr (_, same, _) ↦ rw same c
        | inl (_, m) ↦
            one_row-IsConsistent db.operations db'.operations id
              (changed_operation t m.next at.now m.op) (operations_after id t at db db' frame m) db
              db' refl refl (approvals_after id t at db db' frame m)
              (transition-IsDenseDb id t at db db' b frame e c.dense)
              (Changed-IsLawful hash_json id at db db' (NoClash-IsUnique _ c.unique) is_call m
                (c.lawful id m.op m.found))
              (rw (work_orders_after id t at db db' frame m) c.orders)
              (SameKeys-IsKeyed (Changed-SameKeys id t at db db' frame m) c.keyed) c
      ]

  -- a decision that came too late
  pub Lapsed-IsConsistent :
      {command : ApprovalCommand} {now : ℕ} {event_id : Uuid}
      → Lapsed command now event_id db db'
      → IsConsistent db'
  Lapsed-IsConsistent {command} {now} {event_id} m =
      one_row-IsConsistent db.operations db'.operations command.operation_id
        (set_status OperationStatus.expired now m.op m.op)
        (rw m.rows (get-update_to db command.operation_id m.op _ m.found)) db db' refl refl
        (rw m.rows refl) (Lapsed-IsDenseDb db db' m c.dense)
        (expired-IsLawful db.approvals command.operation_id m.op now (c.lawful _ m.op m.found))
        (rw m.rows c.orders) (rw m.rows c.keyed) c

  -- the work orders
  pub create_or_get_once-IsConsistent :
      (operation_id : Uuid) (payload : JsonObject) (digest : Digest) (id : Uuid) (at : Stamp)
      (r : WorkOrderWriteResult)
      → create_or_get_once operation_id payload digest id at db ≡ ok (r, db')
      → IsConsistent db'
  create_or_get_once-IsConsistent operation_id payload digest id at r h =
      elim (create_or_get_once-ok operation_id payload digest id at db db' r h) [
        | inr m ↦ rw m.rows c
        | inl m ↦
            one_row-IsConsistent db.operations db'.operations operation_id
              (counted at.now m.op m.op) (rw m.rows (get-update_to db operation_id m.op _ m.found))
              db db' refl refl (rw m.rows refl)
              (create_or_get_once-IsDenseDb db db' operation_id payload digest id at r h c.dense)
              (counted-IsLawful db.approvals operation_id m.op at.now (c.lawful _ m.op m.found))
              (AllApproved-Created c.unique m c.orders) (rw m.rows c.keyed) c
      ]
