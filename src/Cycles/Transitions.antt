-- ===== src/Cycles/Transitions.antt =====
-- The approval cycles and the `_transition` of the operation repository.
use opercerta.Common.{ℕ, ◌+◌, ◌≡◌, ◌≢◌, refl, true, false, some, arith}
use opercerta.Domain.Status.{OperationStatus}
use opercerta.Domain.Errors.{Uuid}
use opercerta.Domain.Values.{Digest}
use opercerta.Domain.Facts.{EvidenceContent, OperationSnapshot, approved, rejected}
use opercerta.Store.Table.{Table}
use opercerta.Store.Schema.{Operation, Approval, Db}
use opercerta.Approvals.{is_pending_status}
use opercerta.Operations.Transition.{Transition, Stamp, to, changed_operation, next_cycle}
use opercerta.Operations.Transition.Inversion.{Changed}
use opercerta.Operations.Calls
use opercerta.Operations.Calls.{IsCall}
use opercerta.Cycles.{
  IsLawful, IsUnique, decision_in, decision_in-locator, is_early, is_behind_approval,
}

module _ (t : Transition) (approvals : Table Approval) (id : Uuid) (op : Operation)
    (current : OperationStatus) (next : OperationSnapshot) (now : ℕ)
    (status : op.status ≡ some current) (h : IsLawful approvals id op) where
  -- a change that opens no decision
  plain-IsLawful :
      next_cycle t op.approval_cycle ≡ op.approval_cycle
      → is_pending_status (some t.target) ≡ false
      → t.target ≢ OperationStatus.resuming
      → (is_early (some t.target) ≡ true → is_early (some current) ≡ true)
      → (is_behind_approval (some t.target) ≡ true
          → decision_in id op.approval_cycle approvals ≡ some approved)
      → (t.target ≡ OperationStatus.rejected
          → decision_in id op.approval_cycle approvals ≡ some rejected)
      → IsLawful approvals id (changed_operation t next now op)
  plain-IsLawful same closed fresh start behind refused = record {
    early = ground arith;
    pending_cycle = ground arith;
    undecided = ground arith;
    expiry = ground arith;
    decided = ground arith;
    approval = ground arith;
    rejection = ground arith;
    future = λ c l. ground (arith, h.future c);
  }

  -- a change that opens the decision of the next cycle
  pending-IsLawful :
      {expires : ℕ}
      → next_cycle t op.approval_cycle ≡ op.approval_cycle + 1
      → is_pending_status (some t.target) ≡ true
      → t.approval_expires_at ≡ to (some expires)
      → IsLawful approvals id (changed_operation t next now op)
  pending-IsLawful new opened expires = record {
    early = ground arith;
    pending_cycle = ground arith;
    undecided = ground (arith, h.future (op.approval_cycle + 1));
    expiry = ground arith;
    decided = ground arith;
    approval = ground arith;
    rejection = ground arith;
    future = λ c l. ground (arith, h.future c);
  }

module _ (hash_json : EvidenceContent → Digest) (id : Uuid) (at : Stamp) (db db' : Db)
    (u : IsUnique db.approvals) where
  pub Changed-IsLawful :
      {t : Transition} (call : IsCall hash_json id t) (c : Changed id t at db db')
      → IsLawful db.approvals id c.op
      → IsLawful db.approvals id (changed_operation t c.next at.now c.op)
  Changed-IsLawful {t} (Calls.awaiting binding expires) c h =
      pending-IsLawful t db.approvals id c.op c.current c.next at.now c.status h {expires = expires}
        (ground (arith, c.allowed, c.status, h.early)) refl refl
  Changed-IsLawful {t} (Calls.reapproval k bundle a p binding expires reason) c h =
      pending-IsLawful t db.approvals id c.op c.current c.next at.now c.status h {expires = expires}
        refl refl refl
  Changed-IsLawful {t} (Calls.executing k) c h =
      plain-IsLawful t db.approvals id c.op c.current c.next at.now c.status h refl refl (λ e. cc)
        (λ e. cc) (λ _. decision_in-locator id k approved db c.op u c.found c.validated) (λ e. cc)
  Changed-IsLawful {t} (Calls.rejected k) c h =
      plain-IsLawful t db.approvals id c.op c.current c.next at.now c.status h refl refl (λ e. cc)
        (λ e. cc) (λ e. cc) (λ _. decision_in-locator id k rejected db c.op u c.found c.validated)
  Changed-IsLawful {t} (Calls.verifying k) c h =
      plain-IsLawful t db.approvals id c.op c.current c.next at.now c.status h refl refl (λ e. cc)
        (λ e. cc) (λ _. ground (arith, c.allowed, c.status, h.approval)) (λ e. cc)
  Changed-IsLawful {t} _ c h =
      plain-IsLawful t db.approvals id c.op c.current c.next at.now c.status h refl refl (λ e. cc)
        (λ e. ground (arith, c.allowed)) (λ e. cc) (λ e. cc)
