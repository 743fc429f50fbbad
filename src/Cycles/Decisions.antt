-- ===== src/Cycles/Decisions.antt =====
-- The approval cycles and the writes of the approval repository and of the work orders.
use opercerta.Common.{ℕ, ◌≡◌, ◌≢◌, none, some, ==_iff, arith}
use opercerta.Domain.Status.{OperationStatus}
use opercerta.Domain.Errors.{Uuid}
use opercerta.Domain.Facts.{ApprovalDecision}
use opercerta.Store.Table.{Table, insert}
use opercerta.Store.Schema.{Operation, Approval}
use opercerta.Approvals.{find_approval, set_status}
use opercerta.WorkOrders.{counted}
use opercerta.Cycles.{IsLawful, decision_in}
use opercerta.Cycles.Unique.{find_approval-insert}

module _ (approvals : Table Approval) (k : Uuid) (a : Approval) (d : ApprovalDecision)
    (free : find_approval a.operation_id a.approval_cycle approvals ≡ none)
    (decision : a.decision ≡ some d) where
  -- a decision that was there stays
  pub decision_in-insert :
      (id : Uuid) (c : ℕ)
      → decision_in id c approvals ≢ none
      → decision_in id c (insert k a approvals) ≡ decision_in id c approvals
  decision_in-insert id c h = ground (
    arith,
    find_approval-insert id k c a approvals,
    ==_iff a.operation_id id,
    ==_iff a.approval_cycle c,
  )

  -- another operation is lawful beside the new row
  pub insert_other-IsLawful :
      (id : Uuid) (op : Operation)
      → a.operation_id ≢ id
      → IsLawful approvals id op
      → IsLawful (insert k a approvals) id op
  insert_other-IsLawful id op other h =
      let same = λ (c : ℕ). find_approval-insert id k c a approvals in
      let apart = ==_iff a.operation_id id in
      record {
        early = h.early;
        pending_cycle = h.pending_cycle;
        undecided = ground (arith, same op.approval_cycle, apart);
        expiry = h.expiry;
        decided = ground (arith, same op.approval_cycle, apart);
        approval = ground (arith, same op.approval_cycle, apart);
        rejection = ground (arith, same op.approval_cycle, apart);
        future = λ c l. ground (arith, same c, apart, h.future c);
      }

  -- the operation of the new row resumes
  pub resuming-IsLawful :
      (id : Uuid) (op : Operation) (now : ℕ)
      → a.operation_id ≡ id
      → a.approval_cycle ≡ op.approval_cycle
      → IsLawful approvals id op
      → IsLawful (insert k a approvals) id (set_status OperationStatus.resuming now op op)
  resuming-IsLawful id op now own cycle h =
      let same = λ (c : ℕ). find_approval-insert id k c a approvals in
      record {
        early = ground arith;
        pending_cycle = ground arith;
        undecided = ground arith;
        expiry = ground arith;
        decided = ground (
          arith,
          same op.approval_cycle,
          ==_iff a.operation_id id,
          ==_iff a.approval_cycle op.approval_cycle,
        );
        approval = ground arith;
        rejection = ground arith;
        future = λ c l.
            ground (arith, same c, h.future c, ==_iff a.operation_id id, ==_iff a.approval_cycle c);
      }

module _ (approvals : Table Approval) (id : Uuid) (op : Operation) (now : ℕ)
    (h : IsLawful approvals id op) where
  pub expired-IsLawful : IsLawful approvals id (set_status OperationStatus.expired now op op)
  expired-IsLawful = record {
    early = ground arith;
    pending_cycle = ground arith;
    undecided = ground arith;
    expiry = ground arith;
    decided = ground arith;
    approval = ground arith;
    rejection = ground arith;
    future = h.future;
  }

  pub counted-IsLawful : IsLawful approvals id (counted now op op)
  counted-IsLawful = record {
    early = h.early;
    pending_cycle = h.pending_cycle;
    undecided = h.undecided;
    expiry = h.expiry;
    decided = h.decided;
    approval = h.approval;
    rejection = h.rejection;
    future = h.future;
  }
