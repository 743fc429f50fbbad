-- ===== src/System/Lifecycle/Steps.antt =====
-- The transactions of the repositories against the diagram.
use opercerta.Common.{ℕ, ◌≡◌, refl, sym, Bool, true, Option, none, some, ==_iff, arith, inl, inr}
use opercerta.Domain.Status.{OperationStatus, is_terminal}
use opercerta.Domain.Errors.{Uuid, ok}
use opercerta.Domain.Values.{JsonObject, Digest}
use opercerta.Domain.Contracts.{OperationRequest}
use opercerta.Domain.Facts.{EvidenceContent}
use opercerta.Store.Table.{get, get-insert}
use opercerta.Store.Schema.{Operation, Db}
use opercerta.Operations.Transition.{Transition, Stamp, changed_operation}
use opercerta.Operations.Transition.Inversion.{transition-ok}
use opercerta.Operations.Calls
use opercerta.Operations.Calls.{Call, run, IsCall, IsCall-WritesEvidence, run-IsCall}
use opercerta.Operations.Frame.{operations_after}
use opercerta.Operations.Create.{create}
use opercerta.Operations.Create.Rows.{create-ok, created_tables}
use opercerta.Approvals.{ApprovalCommand, ApprovalRecord, recorded, lapsed, set_status}
use opercerta.Approvals.Rows.{
  Decided, Lapsed, submit_once-ok, submit_bound-recorded, submit_bound-lapsed,
}
use opercerta.WorkOrders.{WorkOrderWriteResult, create_or_get_once, counted}
use opercerta.WorkOrders.Rows.{create_or_get_once-ok}
use opercerta.Audit.Methods.{get-update_to}
use opercerta.System.{
  Step, created, called, submitted, submitted_bound, ordered, detected, retried, reconciled, saved,
}
use opercerta.Operations.Frame.{save_bundle-SameRows}
use opercerta.System.Detected.{
  upsert_detected-SameBusiness, create_successor-SameBusiness,
  reconcile_terminal_links-SameBusiness,
}
use opercerta.System.Lifecycle

module _ (hash_json : EvidenceContent → Digest) where
  IsCall-Edge :
      (id : Uuid) {t : Transition} (s : OperationStatus)
      → IsCall hash_json id t
      → t.allowed s ≡ true
      → Lifecycle.Edge s t.target
  IsCall-Edge id OperationStatus.received Calls.gathering h = Lifecycle.gather
  IsCall-Edge id OperationStatus.gathering_evidence (Calls.evidence bundle rows) h = Lifecycle.plan
  IsCall-Edge id OperationStatus.planning (Calls.plan a p v) h = Lifecycle.validate
  IsCall-Edge id OperationStatus.planning (Calls.assessed a) h = Lifecycle.validate
  IsCall-Edge id OperationStatus.validating Calls.reporting h = Lifecycle.report
  IsCall-Edge id OperationStatus.validating (Calls.awaiting c expires) h = Lifecycle.ask
  IsCall-Edge id OperationStatus.resuming (Calls.reapproval k b a p c e r) h = Lifecycle.ask_again
  IsCall-Edge id OperationStatus.resuming (Calls.abort k r) h = Lifecycle.abort
  IsCall-Edge id OperationStatus.resuming (Calls.executing k) h = Lifecycle.execute
  IsCall-Edge id OperationStatus.executing (Calls.verifying k) h = Lifecycle.verify
  IsCall-Edge id OperationStatus.verifying (Calls.completed r k) h = Lifecycle.complete
  IsCall-Edge id OperationStatus.resuming (Calls.rejected k) h = Lifecycle.reject
  IsCall-Edge id OperationStatus.reporting (Calls.completed_without_action r) h = Lifecycle.answer
  IsCall-Edge id s (Calls.failed e) h = Lifecycle.fail (ground arith)
  IsCall-Edge id OperationStatus.awaiting_approval (Calls.expired now) h = Lifecycle.lapse
  IsCall-Edge id OperationStatus.needs_reapproval (Calls.expired now) h = Lifecycle.relapse
  IsCall-Edge id s c h = absurd (cc)

  module _ (db db' : Db) (id : Uuid) (op : Operation) (found : get id db.operations ≡ some op) where
    created-Later :
        (request : OperationRequest) (j r : Uuid) (at : Stamp)
        → get j db.operations ≡ none
        → create request j at db ≡ ok (r, db')
        → Lifecycle.Later id op db'
    created-Later request j r at new h =
        let (_, _, _, rows) = create-ok request j at db db' r h in
        let (operations, _, _) = created_tables request j at db in
        Lifecycle.same id op db'
          (rw (rows, operations, get-insert) (ground (arith, ==_iff j id, new, found)))

    called-Later :
        (call : Call) (j : Uuid) (at : Stamp) (b : Bool)
        → run hash_json call j at db ≡ ok (b, db')
        → Lifecycle.Later id op db'
    called-Later call j at b h =
        let (t, is_call, e) = run-IsCall hash_json call j at db db' b h in
        elim (transition-ok j t at db db' b e) [
          | inr (_, rows, _) ↦ rw rows (Lifecycle.same id op db found)
          | inl (_, m) ↦
              Lifecycle.replaced db db' j m.op (changed_operation t m.next at.now m.op) m.found
                (operations_after j t at db db' (IsCall-WritesEvidence hash_json j is_call) m)
                (record {
                  move = Lifecycle.Move-from m.status (IsCall-Edge j m.current is_call m.allowed);
                  thread = refl;
                  events = omega arith;
                })
                id op found
        ]

    Decided-Later :
        {command : ApprovalCommand} {k : Uuid} {now : ℕ} {event_id : Uuid} {r : ApprovalRecord}
        → Decided command k now event_id db db' r
        → Lifecycle.Later id op db'
    Decided-Later {command} {k} {now} m =
        Lifecycle.replaced db db' command.operation_id m.op
          (set_status OperationStatus.resuming now m.op m.op) m.found
          (rw m.rows (get-update_to db command.operation_id m.op _ m.found))
          (record {
            move = Lifecycle.pending-Move m.op.status m.pending Lifecycle.decide Lifecycle.redecide;
            thread = refl;
            events = omega arith;
          })
          id op found

    Lapsed-Later :
        {command : ApprovalCommand} {now : ℕ} {event_id : Uuid}
        → Lapsed command now event_id db db'
        → Lifecycle.Later id op db'
    Lapsed-Later {command} {now} m =
        Lifecycle.replaced db db' command.operation_id m.op
          (set_status OperationStatus.expired now m.op m.op) m.found
          (rw m.rows (get-update_to db command.operation_id m.op _ m.found))
          (record {
            move = Lifecycle.pending-Move m.op.status m.pending Lifecycle.lapse Lifecycle.relapse;
            thread = refl;
            events = omega arith;
          })
          id op found

    -- the operations are as they were
    kept : db'.operations ≡ db.operations → Lifecycle.Later id op db'
    kept e = Lifecycle.same id op db' (rw e found)

    ordered-Later :
        (j : Uuid) (payload : JsonObject) (digest : Digest) (k : Uuid) (at : Stamp)
        (r : WorkOrderWriteResult)
        → create_or_get_once j payload digest k at db ≡ ok (r, db')
        → Lifecycle.Later id op db'
    ordered-Later j payload digest k at r h =
        elim (create_or_get_once-ok j payload digest k at db db' r h) [
          | inr m ↦ rw m.rows (Lifecycle.same id op db found)
          | inl m ↦
              Lifecycle.replaced db db' j m.op (counted at.now m.op m.op) m.found
                (rw m.rows (get-update_to db j m.op _ m.found))
                (record { move = Lifecycle.stays; thread = refl; events = omega arith }) id op found
        ]

    -- Every transaction of the operation, evidence, approval, work order and signal repositories
    -- that commits keeps each operation that was there, leaves its thread and moves its status
    -- along an arrow of the lifecycle diagram or not at all, and never lowers the number of its
    -- events.
    pub Step-Later : Step hash_json db db' → Lifecycle.Later id op db'
    Step-Later (created request j r at new h) = created-Later request j r at new h
    Step-Later (called call j at b h) = called-Later call j at b h
    Step-Later (submitted command k at r new h) =
        Decided-Later (submit_once-ok command k db db' at r h)
    Step-Later (submitted_bound command expected k now e (recorded r) new h) =
        Decided-Later (submit_bound-recorded command expected k now e db db' r h).decision
    Step-Later (submitted_bound command expected k now e lapsed new h) =
        Lapsed-Later (submit_bound-lapsed command expected k now e db db' h)
    Step-Later (ordered j payload digest k at r new h) = ordered-Later j payload digest k at r h
    Step-Later (detected draft k r new h) =
        kept (upsert_detected-SameBusiness db db' draft k r h).operations
    Step-Later (retried p now k r new h) =
        kept (create_successor-SameBusiness db db' p now k r h).operations
    Step-Later (reconciled now n h) =
        kept (reconcile_terminal_links-SameBusiness db db' now n h).operations
    Step-Later (saved j bundle rows h) =
        kept (save_bundle-SameRows hash_json j bundle rows db db' h).operations

  -- a terminal status has no arrow out of it
  terminal-Move :
      (s : OperationStatus) (x : Option OperationStatus)
      → is_terminal s ≡ true
      → Lifecycle.Move (some s) x
      → x ≡ some s
  terminal-Move s x h Lifecycle.stays = refl
  terminal-Move s x h (Lifecycle.goes (Lifecycle.fail e)) = absurd (cc)
  terminal-Move s x h (Lifecycle.goes edge) = absurd (ground arith)

  -- An operation in a terminal status is still there in the same status after any transaction of
  -- the operation, evidence, approval, work order and signal repositories that commits.
  pub terminal_stays :
      (db db' : Db) (id : Uuid) (op : Operation) (s : OperationStatus)
      → Step hash_json db db'
      → get id db.operations ≡ some op
      → op.status ≡ some s
      → is_terminal s ≡ true
      → (op' : Operation) × (get id db'.operations ≡ some op') × (op'.status ≡ some s)
  terminal_stays db db' id op s step found status terminal =
      let (op', found', follows) = Step-Later db db' id op found step in
      (op', found', terminal-Move s op'.status terminal (rw (sym status) follows.move))
