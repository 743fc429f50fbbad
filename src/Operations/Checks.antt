-- ===== src/Operations/Checks.antt =====
-- `_require_plan_matches_assessment` and `_work_order_payload`.
use opercerta.Common.{
  ℤ, pos, ℕ_discrete, String, String-discrete, Bool, true, false, not, ◌&&◌, Option, none, some, [],
  ◌∷◌, ◌==◌, decide,
}
use opercerta.Domain.Errors.{Result, ok, err, value_error, raise_if}
use opercerta.Domain.Values.{JsonValue, null, number, text, JsonObject}
use opercerta.Domain.Contracts.{is_none}
use opercerta.Domain.Scenarios.{MaintenancePriority}
use opercerta.Domain.Replenishment.{ReplenishmentAssessment, ReplenishmentPlan}
use opercerta.Domain.Maintenance.{MaintenanceAssessment, MaintenancePlan, priority_value}
use opercerta.Domain.TaskRecovery.{TaskRecoveryAssessment, TaskRecoveryPlan, TaskRecoveryAction}
use opercerta.Domain.Facts.{Assessment, Plan}

-- `==` of the values that the checks compare
unfoldable pub OptionString-discrete : Discrete (Option String)
OptionString-discrete = hlevel String-discrete

unfoldable pub OptionPriority-discrete : Discrete (Option MaintenancePriority)
OptionPriority-discrete = hlevel

unfoldable pub OptionInteger-discrete : Discrete (Option ℤ)
OptionInteger-discrete = hlevel ℕ_discrete

unfoldable pub OptionAction-discrete : Discrete (Option TaskRecoveryAction)
OptionAction-discrete = hlevel

-- the conjunction that a matching plan satisfies
abbrev pub replenishment_matches : ReplenishmentAssessment → ReplenishmentPlan → Bool
replenishment_matches a p =
    not (is_none a.recommended_quantity)
    && decide (String-discrete p.sku a.sku)
    && decide (OptionInteger-discrete (some p.recommended_quantity) a.recommended_quantity)
    && decide (String-discrete p.decision_facts_hash a.decision_facts_hash)

abbrev pub maintenance_matches : MaintenanceAssessment → MaintenancePlan → Bool
maintenance_matches a p =
    decide (String-discrete p.equipment_id a.equipment_id)
    && decide (OptionString-discrete (some p.alert_code) a.alert_code)
    && decide (OptionPriority-discrete (some p.priority) a.priority)
    && decide (String-discrete p.decision_facts_hash a.decision_facts_hash)

abbrev pub recovery_matches : TaskRecoveryAssessment → TaskRecoveryPlan → Bool
recovery_matches a p =
    decide (String-discrete p.task_id a.task_id)
    && decide (OptionString-discrete p.blocker_code a.blocker_code)
    && (p.retry_count == a.retry_count)
    && decide (OptionAction-discrete (some p.recovery_action) a.recovery_action)
    && decide (String-discrete p.decision_facts_hash a.decision_facts_hash)

-- the three branches, by the kind of the assessment; a plan of another kind never matches
abbrev require_recovery : Bool → TaskRecoveryAssessment → Option Plan → Result (Unit {0})
require_recovery false a none = ok tt
require_recovery false a (some _) = err (value_error "non-recovery assessment must not have a plan")
require_recovery true a (some (Plan.task_recovery p)) =
    raise_if (not (recovery_matches a p))
      (value_error "task recovery plan does not match assessment")
require_recovery true a _ = err (value_error "task recovery plan does not match assessment")

abbrev require_maintenance : Bool → MaintenanceAssessment → Option Plan → Result (Unit {0})
require_maintenance false a none = ok tt
require_maintenance false a (some _) =
    err (value_error "non-maintenance assessment must not have a plan")
require_maintenance true a (some (Plan.maintenance p)) =
    raise_if (not (maintenance_matches a p))
      (value_error "maintenance plan does not match assessment")
require_maintenance true a _ = err (value_error "maintenance plan does not match assessment")

abbrev require_replenishment : Bool → ReplenishmentAssessment → Option Plan → Result (Unit {0})
require_replenishment _ a (some (Plan.maintenance _)) =
    err (value_error "non-replenishment plan cannot satisfy replenishment assessment")
require_replenishment _ a (some (Plan.task_recovery _)) =
    err (value_error "non-replenishment plan cannot satisfy replenishment assessment")
require_replenishment false a none =
    raise_if (not (is_none a.recommended_quantity))
      (value_error "non-replenishment assessment must not have a plan")
require_replenishment false a (some (Plan.replenishment _)) =
    err (value_error "non-replenishment assessment must not have a plan")
require_replenishment true a none = err (value_error "replenishment plan does not match assessment")
require_replenishment true a (some (Plan.replenishment p)) =
    raise_if (not (replenishment_matches a p))
      (value_error "replenishment plan does not match assessment")

unfoldable pub require_plan_matches_assessment : Assessment → Option Plan → Result (Unit {0})
require_plan_matches_assessment (Assessment.task_recovery a) plan =
    require_recovery a.recovery_required a plan
require_plan_matches_assessment (Assessment.maintenance a) plan =
    require_maintenance a.maintenance_required a plan
require_plan_matches_assessment (Assessment.replenishment a) plan =
    require_replenishment a.replenishment_required a plan

abbrev text_or_null : Option String → JsonValue
text_or_null none = null
text_or_null (some s) = text s

unfoldable pub work_order_payload : Option Plan → JsonObject
work_order_payload none = []
work_order_payload (some (Plan.replenishment p)) =
    ("sku", text p.sku)
    ∷ ("quantity", number p.recommended_quantity)
    ∷ ("approved_plan_hash", text p.plan_hash)
    ∷ []
work_order_payload (some (Plan.maintenance p)) =
    ("kind", text "repair")
    ∷ ("equipment_id", text p.equipment_id)
    ∷ ("alert_code", text p.alert_code)
    ∷ ("priority", text (priority_value p.priority))
    ∷ ("approved_plan_hash", text p.plan_hash)
    ∷ []
work_order_payload (some (Plan.task_recovery p)) =
    ("kind", text "task_recovery")
    ∷ ("task_id", text p.task_id)
    ∷ ("blocker_code", text_or_null p.blocker_code)
    ∷ ("retry_count", number (pos p.retry_count))
    ∷ ("recovery_action", text "manual_requeue")
    ∷ ("approved_plan_hash", text p.plan_hash)
    ∷ []
