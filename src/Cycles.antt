-- ===== src/Cycles.antt =====
-- The approval cycles of an operation: which decisions there may be in which status.
pub mod Transitions
pub mod Unique
pub mod Decisions
use opercerta.Common.{
  ℕ, ◌+◌, ◌<◌, ◌≡◌, ◌≢◌, refl, Bool, true, false, ◌&&◌, Option, none, some, ◌==◌, ==_iff, arith,
  Option-cases, inl, inr, if◌then◌else◌,
}
use opercerta.Domain.Status.{OperationStatus}
use opercerta.Domain.Errors.{Uuid, ok, raise_if}
use opercerta.Domain.Facts.{ApprovalDecision, approved, rejected}
use opercerta.Store.Table.{Table, get, insert, find_row, get-insert}
use opercerta.Store.Schema.{Operation, Approval, Db}
use opercerta.Operations.Locators.{require_approval_locator}
use opercerta.Approvals.{find_approval, is_pending_status}

-- before the first request for an approval
abbrev pub is_early : Option OperationStatus → Bool
is_early (some OperationStatus.received) = true
is_early (some OperationStatus.gathering_evidence) = true
is_early (some OperationStatus.planning) = true
is_early (some OperationStatus.validating) = true
is_early (some OperationStatus.reporting) = true
is_early _ = false

-- behind an approval
abbrev pub is_behind_approval : Option OperationStatus → Bool
is_behind_approval (some OperationStatus.executing) = true
is_behind_approval (some OperationStatus.verifying) = true
is_behind_approval _ = false

abbrev of_row : Option (Uuid × Approval) → Option ApprovalDecision
of_row none = none
of_row (some (_, a)) = a.decision

-- the decision of an operation in a cycle
abbrev pub decision_in : Uuid → ℕ → Table Approval → Option ApprovalDecision
decision_in id cycle approvals = of_row (find_approval id cycle approvals)

-- what the cycle counter and the recorded decisions say of an operation
pub record IsLawful (approvals : Table Approval) (id : Uuid) (op : Operation) : Type 0 where
  pub early : is_early op.status ≡ true → op.approval_cycle ≡ 0
  pub pending_cycle : is_pending_status op.status ≡ true → 0 < op.approval_cycle
  pub undecided :
      is_pending_status op.status ≡ true → find_approval id op.approval_cycle approvals ≡ none
  pub expiry : is_pending_status op.status ≡ true → op.approval_expires_at ≢ none
  pub decided :
      op.status ≡ some OperationStatus.resuming → decision_in id op.approval_cycle approvals ≢ none
  pub approval :
      is_behind_approval op.status ≡ true
      → decision_in id op.approval_cycle approvals ≡ some approved
  pub rejection :
      op.status ≡ some OperationStatus.rejected
      → decision_in id op.approval_cycle approvals ≡ some rejected
  pub future : (c : ℕ) → op.approval_cycle < c → find_approval id c approvals ≡ none

-- Every approval is the one that is found for its operation and cycle.
pub record IsUnique (approvals : Table Approval) : Type 0 where
  pub row :
      (k : Uuid) (a : Approval)
      → get k approvals ≡ some a
      → find_approval a.operation_id a.approval_cycle approvals ≡ some (k, a)

-- A locator that passes names the decision of the current cycle.
pub decision_in-locator :
    (id k : Uuid) (d : ApprovalDecision) (db : Db) (op : Operation)
    → IsUnique db.approvals
    → get id db.operations ≡ some op
    → require_approval_locator id k d db ≡ ok tt
    → decision_in id op.approval_cycle db.approvals ≡ some d
decision_in-locator id k d db op u found h = elim (Option-cases (get k db.approvals)) [
  | inl e ↦ absurd (unfold require_approval_locator in ground arith)
  | inr (a, e) ↦
      unfold require_approval_locator in ground (arith, u.row k a e, ==_iff a.operation_id id)
]
