-- ===== src/Domain/Facts.antt =====
-- What the three scenarios have in common: one type for their evidence bundles, assessments and
-- plans, the results of an operation (domain/replenishment.py) and its snapshot
-- (domain/operation_state.py).
use opercerta.Common.{String, Option}
use opercerta.Domain.Errors.{Uuid}
use opercerta.Domain.Values.{JsonObject}
use opercerta.Domain.Contracts.{OperationRequest}
use opercerta.Domain.Scenarios.{ApprovalBinding}
use opercerta.Domain.Replenishment.{
  InventoryEvidence, PolicyEvidence, EvidenceBundle, ReplenishmentAssessment, ReplenishmentPlan,
}
use opercerta.Domain.Maintenance.{
  EquipmentEvidence, MaintenancePolicyEvidence, MaintenanceEvidenceBundle, MaintenanceAssessment,
  MaintenancePlan,
}
use opercerta.Domain.TaskRecovery.{
  TaskEvidence, TaskRecoveryPolicyEvidence, TaskRecoveryEvidenceBundle, TaskRecoveryAssessment,
  TaskRecoveryPlan,
}

pub data Bundle : Type 0 where
  inventory : EvidenceBundle → Bundle
  equipment : MaintenanceEvidenceBundle → Bundle
  task : TaskRecoveryEvidenceBundle → Bundle

pub data Assessment : Type 0 where
  replenishment : ReplenishmentAssessment → Assessment
  maintenance : MaintenanceAssessment → Assessment
  task_recovery : TaskRecoveryAssessment → Assessment

pub data Plan : Type 0 where
  replenishment : ReplenishmentPlan → Plan
  maintenance : MaintenancePlan → Plan
  task_recovery : TaskRecoveryPlan → Plan

-- the parts of a bundle, as they are dumped
pub data EvidenceContent : Type 0 where
  inventory : InventoryEvidence → EvidenceContent
  replenishment_policy : PolicyEvidence → EvidenceContent
  equipment : EquipmentEvidence → EvidenceContent
  maintenance_policy : MaintenancePolicyEvidence → EvidenceContent
  task : TaskEvidence → EvidenceContent
  recovery_policy : TaskRecoveryPolicyEvidence → EvidenceContent

pub data Outcome : Type 0 where
  replenishment_not_required maintenance_not_required task_recovery_not_required : Outcome
  query_completed work_order_completed : Outcome

pub record OperationResult : Type 0 where
  pub outcome : Outcome
  pub message : String
  pub work_order_id : Option Uuid

pub record OperationError : Type 0 where
  pub code : String
  pub message : String

-- the keys that the program writes into `risk`
pub record Risk : Type 0 where
  pub evidence : Option Bundle
  pub assessment : Option Assessment
  pub approval_binding : Option ApprovalBinding

-- `plan` is `none` where the source has the empty object
pub record OperationSnapshot : Type 0 where
  pub request : OperationRequest
  pub risk : Risk
  pub plan : Option Plan
  pub work_order_payload : JsonObject

unfoldable pub Outcome-discrete : Discrete Outcome
Outcome-discrete = hlevel

pub data ApprovalDecision : Type 0 where
  approved rejected : ApprovalDecision

unfoldable pub ApprovalDecision-discrete : Discrete ApprovalDecision
ApprovalDecision-discrete = hlevel
