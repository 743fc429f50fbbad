-- ===== src/Domain/Scenarios.antt =====
-- domain/scenarios.py: the facts that an approval is bound to.
use opercerta.Common.{ℤ, String, String-discrete, ℕ_discrete, Bool, true, false, not, pos, ltb_ℤ}
use opercerta.Domain.Errors.{Uuid, Result, ok, value_error, raise_if, ◌>>◌}
use opercerta.Domain.Values.{Digest}

pub data ScenarioKind : Type 0 where
  inventory equipment task : ScenarioKind

pub data MaintenancePriority : Type 0 where
  normal high urgent : MaintenancePriority

-- `recovery_action` of `task_recovery` has one value, "manual_requeue"
pub data ActionParameters : Type 0 where
  replenishment : ℤ → ActionParameters
  repair : String → MaintenancePriority → ActionParameters
  task_recovery : ActionParameters

pub record ApprovalBinding : Type 0 where
  pub scenario : ScenarioKind
  pub subject_evidence_id : Uuid
  pub policy_evidence_id : Uuid
  pub rule_version : String
  pub decision_facts_hash : Digest
  pub plan_hash : Digest
  pub parameters : ActionParameters

unfoldable pub ApprovalBinding-discrete : Discrete ApprovalBinding
ApprovalBinding-discrete = hlevel (ℕ_discrete, String-discrete)

-- the binding of domain/replenishment.py, from before there were scenarios
pub record InventoryBinding : Type 0 where
  pub inventory_evidence_id : Uuid
  pub policy_evidence_id : Uuid
  pub rule_version : String
  pub decision_facts_hash : Digest
  pub plan_hash : Digest
  pub recommended_quantity : ℤ

abbrev pub matches_scenario : ScenarioKind → ActionParameters → Bool
matches_scenario ScenarioKind.inventory (replenishment _) = true
matches_scenario ScenarioKind.equipment (repair _ _) = true
matches_scenario ScenarioKind.task task_recovery = true
matches_scenario _ _ = false

-- the validator that runs after a binding is built
unfoldable pub require_matching_scenario : ApprovalBinding → Result ApprovalBinding
require_matching_scenario b = do
  raise_if (not (matches_scenario b.scenario b.parameters))
      (value_error "approval parameters must match scenario")
  ok b

-- `ApprovalBinding.model_validate` of the older binding: `ReplenishmentParameters` takes positive
-- quantities only
unfoldable pub upgrade_inventory_binding : InventoryBinding → Result ApprovalBinding
unfolding require_matching_scenario
upgrade_inventory_binding v = do
  raise_if (ltb_ℤ v.recommended_quantity (pos 1)) (value_error "Input should be greater than 0")
  require_matching_scenario (record {
    scenario = ScenarioKind.inventory;
    subject_evidence_id = v.inventory_evidence_id;
    policy_evidence_id = v.policy_evidence_id;
    rule_version = v.rule_version;
    decision_facts_hash = v.decision_facts_hash;
    plan_hash = v.plan_hash;
    parameters = replenishment v.recommended_quantity;
  })
