-- ===== src/Tests/Data.antt =====
-- Concrete requests, evidence, plans and arguments.
use opercerta.Common.{ℕ, String, Option, none, some, [], ◌∷◌, pos, true}
use opercerta.Domain.Values.{Digest, Runtime}
use opercerta.Domain.Contracts.{OperationRequest, ActionType, ObjectType}
use opercerta.Domain.Scenarios.{
  ApprovalBinding, ScenarioKind, ActionParameters, MaintenancePriority,
}
use opercerta.Domain.Replenishment.{
  EvidenceBundle, ReplenishmentAssessment, ReplenishmentPlan, ModelPlanExplanation,
}
use opercerta.Domain.Maintenance.{
  MaintenanceEvidenceBundle, EquipmentState, AlertSeverity, AlertLevel,
}
use opercerta.Domain.TaskRecovery.{TaskRecoveryEvidenceBundle, TaskState}
use opercerta.Domain.Facts.{EvidenceContent, ApprovalDecision}
use opercerta.Operations.EvidenceRows.{EvidenceStamp}
use opercerta.Operations.Transition.{Stamp}
use opercerta.Approvals.{ApprovalCommand}

abbrev pub py : Runtime
py = record { sha256 = λ _. "d1"; isoformat = λ _. "2026-01-01T00:00:00+00:00"; strip = λ s. s }

abbrev pub hash_json : EvidenceContent → Digest
hash_json _ = "e1"

abbrev pub request : OperationRequest
request = record {
  message = "restock SKU-1";
  requested_action = some ActionType.create_work_order;
  object_type = some ObjectType.inventory;
  object_id = some "SKU-1";
  trigger_signal_id = none;
}

abbrev pub bundle : EvidenceBundle
bundle = record {
  inventory = record {
    evidence_id = 11;
    sku = "SKU-1";
    on_hand_quantity = 8;
    reserved_quantity = 3;
    captured_at = 100;
    source_version = "v1";
  };
  policy = record {
    evidence_id = 12;
    sku = "SKU-1";
    reorder_point = 10;
    target_stock = 20;
    minimum_order_quantity = 1;
    maximum_order_quantity = 50;
    evidence_ttl_seconds = 60;
    rule_version = "r1";
    captured_at = 100;
  };
}

abbrev pub assessment : ReplenishmentAssessment
assessment = record {
  sku = "SKU-1";
  available_quantity = pos 5;
  reorder_point = 10;
  target_stock = 20;
  replenishment_required = true;
  recommended_quantity = some (pos 15);
  decision_facts_hash = "d1";
}

abbrev pub explanation : ModelPlanExplanation
explanation = record { summary = "restock"; rationale = "low stock" }

abbrev pub plan : ReplenishmentPlan
plan = record {
  sku = "SKU-1";
  recommended_quantity = pos 15;
  decision_facts_hash = "d1";
  rule_version = "r1";
  summary = "restock";
  rationale = "low stock";
  plan_hash = "d1";
}

abbrev pub binding : ApprovalBinding
binding = record {
  scenario = ScenarioKind.inventory;
  subject_evidence_id = 11;
  policy_evidence_id = 12;
  rule_version = "r1";
  decision_facts_hash = "d1";
  plan_hash = "d1";
  parameters = ActionParameters.replenishment (pos 15);
}

-- the overheating machine
abbrev pub machine : MaintenanceEvidenceBundle
machine = record {
  equipment = record {
    evidence_id = 21;
    equipment_id = "EQ-1";
    state = EquipmentState.degraded;
    alert_code = some "OVERHEAT";
    severity = AlertSeverity.warning;
    last_heartbeat = 50;
    captured_at = 100;
    source_version = "v1";
  };
  policy = record {
    evidence_id = 22;
    equipment_id = "EQ-1";
    allowed_alert_levels = AlertLevel.warning ∷ AlertLevel.critical ∷ [];
    maximum_heartbeat_age_seconds = 30;
    priority_mapping = record {
      warning = MaintenancePriority.normal;
      critical = MaintenancePriority.urgent;
      stale_heartbeat = MaintenancePriority.high;
    };
    evidence_ttl_seconds = 60;
    rule_version = "r1";
    captured_at = 100;
  };
}

-- a task, its state, its blocker and how often it was tried
abbrev pub task_with : TaskState → Option String → ℕ → TaskRecoveryEvidenceBundle
task_with state blocker retries = record {
  task = record {
    evidence_id = 31;
    task_id = "T-1";
    state = state;
    due_at = 1000;
    last_progress_at = 50;
    blocker_code = blocker;
    retry_count = retries;
    captured_at = 100;
    source_version = "v1";
  };
  policy = record {
    evidence_id = 32;
    task_id = "T-1";
    blocked_states = TaskState.blocked ∷ [];
    overdue_grace_seconds = 60;
    maximum_retry_count = 3;
    evidence_ttl_seconds = 60;
    rule_version = "r1";
    captured_at = 100;
  };
}

abbrev pub stamp : ℕ → Stamp
stamp n = record { now = n; event_id = n }

abbrev pub rows : EvidenceStamp
rows = record { subject_id = 41; policy_id = 42; created_at = 3 }

abbrev pub command : ApprovalCommand
command = record {
  operation_id = 1;
  approver_id = "ann";
  decision = ApprovalDecision.approved;
  reason = "needed";
}
