-- ===== src/Tests/Assessments.antt =====
-- The theorems on the assessments, the plans and the recovery, at concrete evidence.
use opercerta.Common.{◌-ℤ◌, ◌<◌, ◌≤◌, ◌≡◌, ◌⊎◌, ◌↔◌, refl, true, false, none, some, String, max}
use opercerta.Domain.Status.{OperationStatus}
use opercerta.Domain.Errors.{
  ok, evidence_expired, task_recovery_out_of_policy, replenishment_quantity_out_of_policy, ◌>>=◌,
}
use opercerta.Domain.Scenarios.{MaintenancePriority, upgrade_inventory_binding}
use opercerta.Domain.Replenishment.{
  EvidenceBundle, build_plan, build_approval_binding, assess_replenishment,
  require_safe_policy_relationships,
}
use opercerta.Domain.Replenishment.Policy.{
  Assesses, IsShort, shortfall, Stale, assess_replenishment-Assesses, assess_replenishment-err,
}
use opercerta.Domain.Replenishment.Binding.{required_binding, build_plan-upgrade_inventory_binding}
use opercerta.Domain.Maintenance.{
  MaintenanceAssessment, MaintenanceReason, EquipmentState, assess_maintenance,
  build_maintenance_plan, build_maintenance_approval_binding, require_consistent_alert,
}
use opercerta.Domain.Maintenance.Priority.{
  level, stale_level, alert_level, repair_binding, assess_maintenance-priority,
  assess_maintenance-reason, build_maintenance_plan_total,
}
use opercerta.Domain.TaskRecovery.{
  TaskState, TaskRecoveryAssessment, TaskRecoveryReason, manual_requeue, assess_task_recovery,
  build_task_recovery_plan, build_task_recovery_approval_binding, require_safe_blocked_states,
}
use opercerta.Domain.TaskRecovery.Limits as Limits
use opercerta.Domain.TaskRecovery.Limits.{
  IsBlocked, IsOverdue, recovery_binding, assess_task_recovery-reason, assess_task_recovery-err,
  assess_task_recovery_terminal, build_task_recovery_plan_total,
}
use opercerta.Domain.Recovery.{CheckpointPhase, RecoveryFacts, recovery_facts}
use opercerta.Domain.Recovery.Choice.{Chooses, choose_recovery_action_cases}
use opercerta.Tests.Data.{py, bundle, assessment, explanation, machine, task_with}

assess_replenishment-Assesses_example : Assesses bundle assessment
unfolding assess_replenishment require_safe_policy_relationships ◌-ℤ◌
assess_replenishment-Assesses_example =
    assess_replenishment-Assesses py bundle 200 {a = assessment} refl refl

-- 1000 units are wanted, and 50 may be ordered
abbrev too_much : EvidenceBundle
too_much = record bundle { policy = record (bundle.policy) { target_stock = 1000 } }

assess_replenishment-err_example :
    ((replenishment_quantity_out_of_policy ≡ evidence_expired) × Stale too_much 200)
    ⊎ ((replenishment_quantity_out_of_policy ≡ replenishment_quantity_out_of_policy)
        × IsShort too_much
        × ((shortfall too_much < 1) ⊎ (50 < shortfall too_much)))
unfolding assess_replenishment require_safe_policy_relationships ◌-ℤ◌
assess_replenishment-err_example =
    assess_replenishment-err py too_much 200 {e = replenishment_quantity_out_of_policy} refl refl

build_plan-upgrade_inventory_binding_example :
    (do
      p ← build_plan py assessment explanation "r1"
      upgrade_inventory_binding (build_approval_binding bundle p))
    ≡ ok (required_binding py bundle assessment)
unfolding assess_replenishment require_safe_policy_relationships ◌-ℤ◌
build_plan-upgrade_inventory_binding_example =
    build_plan-upgrade_inventory_binding py bundle 200 explanation assessment refl refl refl

-- the machine is repaired for its alert
abbrev overheats : MaintenanceAssessment
overheats = record {
  equipment_id = "EQ-1";
  state = EquipmentState.degraded;
  alert_code = some "OVERHEAT";
  maintenance_required = true;
  reason = some MaintenanceReason.alert;
  priority = some MaintenancePriority.normal;
  heartbeat_age_seconds = 0;
  decision_facts_hash = "d1";
}

assess_maintenance-priority_example :
    (level true (some MaintenancePriority.normal)
      ≡ max (stale_level machine 200) (alert_level machine))
    × ((true ≡ true) ↔ (0 < max (stale_level machine 200) (alert_level machine)))
unfolding assess_maintenance
assess_maintenance-priority_example = assess_maintenance-priority py machine 200 overheats refl

assess_maintenance-reason_example :
    ((overheats.reason ≡ some MaintenanceReason.stale_heartbeat)
      ↔ (alert_level machine < stale_level machine 200))
    × ((overheats.reason ≡ some MaintenanceReason.alert)
        ↔ ((0 < alert_level machine) × (stale_level machine 200 ≤ alert_level machine)))
unfolding assess_maintenance
assess_maintenance-reason_example = assess_maintenance-reason py machine 200 overheats refl

build_maintenance_plan_total_example :
    (code : String) × (p : MaintenancePriority) × (overheats.alert_code ≡ some code)
    × (overheats.priority ≡ some p)
    × ((do
      plan ← build_maintenance_plan py overheats explanation "r1"
      build_maintenance_approval_binding machine plan)
        ≡ ok (repair_binding py machine overheats code p))
unfolding assess_maintenance require_consistent_alert
build_maintenance_plan_total_example =
    build_maintenance_plan_total py machine 200 overheats refl explanation refl refl

abbrev blocked_task : TaskRecoveryAssessment
blocked_task = record {
  task_id = "T-1";
  state = TaskState.blocked;
  blocker_code = some "JAM";
  retry_count = 2;
  recovery_required = true;
  reason = some TaskRecoveryReason.blocked;
  recovery_action = some manual_requeue;
  decision_facts_hash = "d1";
}

assess_task_recovery-reason_example :
    ((true ≡ true) ↔ (
      IsBlocked (task_with TaskState.blocked (some "JAM") 2)
      ⊎ IsOverdue (task_with TaskState.blocked (some "JAM") 2) 200))
    × ((blocked_task.reason ≡ some TaskRecoveryReason.blocked)
        ↔ IsBlocked (task_with TaskState.blocked (some "JAM") 2))
    × ((blocked_task.reason ≡ some TaskRecoveryReason.overdue) ↔ (
        ¬ IsBlocked (task_with TaskState.blocked (some "JAM") 2)
        × IsOverdue (task_with TaskState.blocked (some "JAM") 2) 200))
    × (true ≡ true → 2 ≤ 3)
unfolding assess_task_recovery
assess_task_recovery-reason_example =
    assess_task_recovery-reason py (task_with TaskState.blocked (some "JAM") 2) 200 blocked_task
      refl

assess_task_recovery-err_example :
    ((task_recovery_out_of_policy ≡ evidence_expired)
      × Limits.Stale (task_with TaskState.blocked (some "JAM") 4) 200)
    ⊎ ((task_recovery_out_of_policy ≡ task_recovery_out_of_policy)
        × (IsBlocked (task_with TaskState.blocked (some "JAM") 4)
            ⊎ IsOverdue (task_with TaskState.blocked (some "JAM") 4) 200)
        × (3 < 4))
unfolding assess_task_recovery
assess_task_recovery-err_example =
    assess_task_recovery-err py (task_with TaskState.blocked (some "JAM") 4) 200
      {e = task_recovery_out_of_policy} refl

-- the assessment of a task that is done
abbrev done_task : TaskRecoveryAssessment
done_task = record blocked_task {
  state = TaskState.completed;
  blocker_code = none;
  recovery_required = false;
  reason = none;
  recovery_action = none;
}

assess_task_recovery_terminal_example :
    (false ≡ false) × (done_task.reason ≡ none) × (done_task.recovery_action ≡ none)
unfolding assess_task_recovery require_safe_blocked_states
assess_task_recovery_terminal_example =
    assess_task_recovery_terminal py (task_with TaskState.completed none 2) 200 done_task refl refl
      refl

build_task_recovery_plan_total_example :
    (do
      plan ←
          build_task_recovery_plan py blocked_task explanation
            (task_with TaskState.blocked (some "JAM") 2).policy
      build_task_recovery_approval_binding (task_with TaskState.blocked (some "JAM") 2) plan)
    ≡ ok (recovery_binding py (task_with TaskState.blocked (some "JAM") 2) blocked_task)
unfolding assess_task_recovery
build_task_recovery_plan_total_example =
    build_task_recovery_plan_total py (task_with TaskState.blocked (some "JAM") 2) 200 blocked_task
      explanation refl refl

-- an operation that was interrupted for an approval which is now there
abbrev interrupted : RecoveryFacts
interrupted = record {
  status = OperationStatus.awaiting_approval;
  checkpoint = CheckpointPhase.interrupted;
  has_approval = true;
  has_work_order = false;
}

choose_recovery_action_cases_example :
    Chooses OperationStatus.awaiting_approval CheckpointPhase.interrupted true false interrupted
unfolding recovery_facts
choose_recovery_action_cases_example =
    choose_recovery_action_cases OperationStatus.awaiting_approval CheckpointPhase.interrupted true
      false {f = interrupted} refl
