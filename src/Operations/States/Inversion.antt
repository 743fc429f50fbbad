-- ===== src/Operations/States/Inversion.antt =====
-- What a `mark_` method of the state repository that returns has done.
use opercerta.Common.{◌+◌, ◌≡◌, arith, some, ◌⊎◌, inl, inr, Option-cases, Bool-cases, ap, ◌∙◌}
use opercerta.Domain.Status.{OperationStatus, OperationStatus-discrete}
use opercerta.Domain.Errors.{Uuid, ok}
use opercerta.Store.Table.{get, update}
use opercerta.Store.Schema.{Operation, Db}
use opercerta.Store.Tx.{has_sequence}
use opercerta.Operations.Transition.{Stamp, locked_operation, known_status}
use opercerta.Operations.States.{
  StateTransition, OperationTransitionResult, moved_operation, move, state_transition,
}

-- an operation in the allowed status was moved
pub record Moved (id : Uuid) (t : StateTransition) (at : Stamp) (db db' : Db) : Type 0 where
  pub op : Operation
  pub found : get id db.operations ≡ some op
  pub status : op.status ≡ some t.allowed
  pub operations : db'.operations ≡ update id (λ _. moved_operation t at.now op) db.operations

module _ (id : Uuid) (t : StateTransition) (at : Stamp) (db db' : Db)
    (r : OperationTransitionResult) (h : state_transition id t at db ≡ ok (r, db')) where
  moved :
      (op : Operation) (current : OperationStatus)
      → move id t at op current db ≡ ok (r, db')
      → (current ≡ t.allowed)
        × (db'.operations ≡ update id (λ _. moved_operation t at.now op) db.operations)
  unfolding move
  moved op current e = elim (OperationStatus-discrete current t.allowed) [
    | no forbidden ↦ absurd (ground arith)
    | yes allowed ↦
        elim (Bool-cases (has_sequence id (op.next_audit_sequence + 1) db.audit_events)) [
          | inl taken ↦ absurd (ground arith)
          | inr free ↦ (allowed, ground arith)
        ]
  ]

  pub state_transition-ok : (db' ≡ db) ⊎ Moved id t at db db'
  unfolding state_transition locked_operation known_status
  state_transition-ok = elim (Option-cases (get id db.operations)) [
    | inl e ↦ absurd (ground arith)
    | inr (op, found) ↦ elim (Option-cases op.status) [
      | inl e ↦ absurd (ground arith)
      | inr (current, status) ↦ elim (OperationStatus-discrete current t.target) [
        | yes same ↦ inl (ground arith)
        | no other ↦ inr (record {
          op = op;
          found = found;
          status = status ∙ ap some (moved op current (ground arith)).0;
          operations = (moved op current (ground arith)).1;
        })
      ]
    ]
  ]
