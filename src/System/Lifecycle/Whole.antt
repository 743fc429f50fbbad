-- ===== src/System/Lifecycle/Whole.antt =====
-- The lifecycle of an operation with the transactions of the state repository.
use native.Mathlib.Decide.{ℕ_discrete}
use opercerta.Common.{
  ◌∙◌, ◌≢◌, ◌≤◌, ◌≡◌, refl, arith, Option, some, ◌==◌, ==_iff, if◌then◌else◌, inl, inr,
}
use opercerta.Domain.Status.{OperationStatus}
use opercerta.Domain.Errors.{Uuid}
use opercerta.Domain.Values.{Digest}
use opercerta.Domain.Facts.{EvidenceContent}
use opercerta.Store.Table.{get}
use opercerta.Store.Schema.{Operation, Db}
use opercerta.Operations.Transition.{Stamp}
use opercerta.Operations.States.{
  StateCall, arguments, moved_operation, mark, mark_awaiting_approval, mark_executing,
  mark_verifying, mark_completed, mark_rejected,
}
use opercerta.Operations.States.Inversion.{Moved, state_transition-ok}
use opercerta.Audit.Methods.{get-update_to}
use opercerta.System.{Transaction, of_service, of_states}
use opercerta.System.Lifecycle
use opercerta.System.Lifecycle.Steps.{Step-Later}

-- the status of a row before and after: as in the diagram, or from received straight to the approval
pub data WholeMove : Option OperationStatus → Option OperationStatus → Type 0 where
  drawn : {s t : Option OperationStatus} → Lifecycle.Move s t → WholeMove s t
  straight : WholeMove (some OperationStatus.received) (some OperationStatus.awaiting_approval)

abbrev pub WholeLater : Uuid → Operation → Db → Type 0
WholeLater id op db' =
    (op' : Operation) × (get id db'.operations ≡ some op')
    × WholeMove op.status op'.status
    × (op'.thread_id ≡ op.thread_id)
    × (op.next_audit_sequence ≤ op'.next_audit_sequence)

arguments-WholeMove :
    (c : StateCall) → WholeMove (some (arguments c).allowed) (some (arguments c).target)
arguments-WholeMove mark_awaiting_approval = straight
arguments-WholeMove (mark_executing k) = drawn (Lifecycle.goes Lifecycle.execute)
arguments-WholeMove (mark_verifying k) = drawn (Lifecycle.goes Lifecycle.verify)
arguments-WholeMove (mark_completed k) = drawn (Lifecycle.goes Lifecycle.complete)
arguments-WholeMove (mark_rejected k) = drawn (Lifecycle.goes Lifecycle.reject)

module _ (db db' : Db) (id : Uuid) (op : Operation) (found : get id db.operations ≡ some op) where
  unmoved : get id db'.operations ≡ some op → WholeLater id op db'
  unmoved e = (op, e, drawn Lifecycle.stays, refl, omega arith)

  moved :
      (c : StateCall) (j : Uuid) (at : Stamp)
      → Moved j (arguments c) at db db'
      → WholeLater id op db'
  moved c j at m = elim (ℕ_discrete j id) [
    | no other ↦ unmoved (row id ∙ rw (row_other other) found)
    | yes same ↦
        let is_op : op ≡ m.op = ground arith in
        (
          moved_operation (arguments c) at.now m.op,
          row id ∙ row_same same,
          rw (is_op, m.status) (arguments-WholeMove c),
          rw is_op refl,
          rw is_op (omega arith),
        )
  ]
    where
      row :
          (i : Uuid)
          → get i db'.operations ≡ (
              if j == i
              then some (moved_operation (arguments c) at.now m.op)
              else get i db.operations)
      row i =
          rw m.operations
            (get-update_to db j m.op (moved_operation (arguments c) at.now m.op) m.found i)

      row_same :
          j ≡ id
          → (if j == id
              then some (moved_operation (arguments c) at.now m.op)
              else get id db.operations)
            ≡ some (moved_operation (arguments c) at.now m.op)
      row_same e = ground (arith, ==_iff j id)

      row_other :
          j ≢ id
          → (if j == id
              then some (moved_operation (arguments c) at.now m.op)
              else get id db.operations)
            ≡ get id db.operations
      row_other e = ground (arith, ==_iff j id)

  -- Every transaction that commits, those of the operation state repository included, keeps each
  -- operation that was there, leaves its thread, moves its status along an arrow of the
  -- lifecycle diagram, from received straight to the wait for an approval, or not at all, and
  -- never lowers the number of its events.
  pub Transaction-WholeLater :
      (hash_json : EvidenceContent → Digest) → Transaction hash_json db db' → WholeLater id op db'
  unfolding mark
  Transaction-WholeLater hash_json (of_service step) =
      let (op', found', follows) = Step-Later hash_json db db' id op found step in
      (op', found', drawn follows.move, follows.thread, follows.events)
  Transaction-WholeLater hash_json (of_states c j at r h) =
      elim (state_transition-ok j (arguments c) at db db' r h) [
        | inl same ↦ unmoved (rw same found)
        | inr m ↦ moved c j at m
      ]
