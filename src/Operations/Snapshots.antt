-- ===== src/Operations/Snapshots.antt =====
-- The snapshot of an operation: `_replace_risk_value`, `_require_binding_matches_snapshot`, and
-- `_current_binding` of approval_repository.py.
use opercerta.Common.{Bool, not, Option, none, some, decide}
use opercerta.Domain.Errors.{
  Result, ok, err, value_error, approval_snapshot_mismatch, Error, raise_if, ◌>>=◌, ◌>>◌,
}
use opercerta.Domain.Contracts.{ObjectType}
use opercerta.Domain.Scenarios.{
  ApprovalBinding, ApprovalBinding-discrete, upgrade_inventory_binding,
}
use opercerta.Domain.Replenishment.{build_approval_binding}
use opercerta.Domain.Maintenance.{build_maintenance_approval_binding}
use opercerta.Domain.TaskRecovery.{build_task_recovery_approval_binding}
use opercerta.Domain.Facts.{Bundle, Plan, OperationSnapshot}

-- `_replace_risk_value(snapshot, "evidence", …)`
abbrev pub with_evidence : Bundle → OperationSnapshot → OperationSnapshot
with_evidence b s = record s { risk = record (s.risk) { evidence = some b } }

-- `_replace_risk_value(snapshot, "approval_binding", …)`
abbrev pub with_binding : ApprovalBinding → OperationSnapshot → OperationSnapshot
with_binding b s = record s { risk = record (s.risk) { approval_binding = some b } }

-- what `model_validate` raises for the dump of another model
abbrev invalid : Error
invalid = value_error "validation error"

-- the binding that the evidence and the plan of a scenario give; the dumps of another scenario do
-- not validate
abbrev derived : ObjectType → Bundle → Plan → Result ApprovalBinding
derived ObjectType.inventory (Bundle.inventory b) (Plan.replenishment p) =
    upgrade_inventory_binding (build_approval_binding b p)
derived ObjectType.equipment (Bundle.equipment b) (Plan.maintenance p) =
    build_maintenance_approval_binding b p
derived ObjectType.task (Bundle.task b) (Plan.task_recovery p) =
    build_task_recovery_approval_binding b p
derived _ _ _ = err invalid

unfoldable pub derive_binding : Option ObjectType → Bundle → Plan → Result ApprovalBinding
unfolding upgrade_inventory_binding build_approval_binding build_maintenance_approval_binding
    build_task_recovery_approval_binding
derive_binding none b p = err (value_error "unsupported approval binding object type")
derive_binding (some t) b p = derived t b p

-- `expected != binding`
abbrev pub differs : ApprovalBinding → ApprovalBinding → Bool
differs a b = not (decide (ApprovalBinding-discrete a b))

abbrev evidence_and_plan : Option Bundle → Option Plan → Result (Bundle × Plan)
evidence_and_plan (some b) (some p) = ok (b, p)
evidence_and_plan _ _ = err (value_error "approval binding requires evidence and plan")

unfoldable pub require_binding_matches_snapshot :
    OperationSnapshot → ApprovalBinding → Result (Unit {0})
require_binding_matches_snapshot s binding = do
  facts ← evidence_and_plan s.risk.evidence s.plan
  expected ← derive_binding s.request.object_type facts.0 facts.1
  raise_if (differs expected binding) (value_error "approval binding does not match snapshot")

-- `try: … except ValidationError: raise ApprovalSnapshotMismatch`
abbrev or_mismatch {ℓ} : {A : Type ℓ} → Result A → Result A
or_mismatch (ok a) = ok a
or_mismatch (err e) = err approval_snapshot_mismatch

-- the parts of the snapshot that `_current_binding` validates; a missing one does not validate
abbrev stored_facts :
    Option ApprovalBinding → Option Bundle → Option Plan → Result (ApprovalBinding × Bundle × Plan)
stored_facts (some c) (some b) (some p) = ok (c, b, p)
stored_facts _ _ _ = err approval_snapshot_mismatch

abbrev snapshot_or_mismatch : Option OperationSnapshot → Result OperationSnapshot
snapshot_or_mismatch (some s) = ok s
snapshot_or_mismatch none = err approval_snapshot_mismatch

unfoldable pub current_binding : Option OperationSnapshot → Result ApprovalBinding
current_binding value = do
  s ← snapshot_or_mismatch value
  facts ← stored_facts s.risk.approval_binding s.risk.evidence s.plan
  expected ← or_mismatch (derive_binding s.request.object_type facts.1 facts.2)
  raise_if (differs facts.0 expected) approval_snapshot_mismatch
  ok facts.0
