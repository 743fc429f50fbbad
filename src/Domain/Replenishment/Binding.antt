-- ===== src/Domain/Replenishment/Binding.antt =====
-- domain/replenishment.py: from an assessment to the binding that is approved.
use opercerta.Common.{ℕ, pos, ◌≡◌, true, arith}
use opercerta.Domain.Errors.{ok, ◌>>=◌}
use opercerta.Domain.Values.{aware, Runtime}
use opercerta.Domain.Scenarios.{
  ApprovalBinding, ScenarioKind, replenishment, upgrade_inventory_binding,
}
use opercerta.Domain.Replenishment.{
  EvidenceBundle, ReplenishmentAssessment, ModelPlanExplanation, require_safe_policy_relationships,
  assess_replenishment, build_plan, build_approval_binding, plan_facts,
}
use opercerta.Domain.Replenishment.Policy.{shortfall, assess_replenishment-Assesses}

-- the binding that a required assessment comes to
abbrev pub required_binding : Runtime → EvidenceBundle → ReplenishmentAssessment → ApprovalBinding
required_binding py b a =
    let version = py.strip b.policy.rule_version in
    let quantity = pos (shortfall b) in
    record {
      scenario = ScenarioKind.inventory;
      subject_evidence_id = b.inventory.evidence_id;
      policy_evidence_id = b.policy.evidence_id;
      rule_version = version;
      decision_facts_hash = a.decision_facts_hash;
      plan_hash = py.sha256 (plan_facts a.decision_facts_hash quantity version a.sku);
      parameters = replenishment quantity;
    }

module _ (py : Runtime) where
  -- With a valid policy, an assessment that requires an order always gives a plan and a binding
  -- that the newer binding model accepts, with the evidence's ids, the quantity and the hashes
  -- of the facts and of the plan.
  pub build_plan-upgrade_inventory_binding :
      (b : EvidenceBundle) (now : ℕ) (x : ModelPlanExplanation) (a : ReplenishmentAssessment)
      → require_safe_policy_relationships b.policy ≡ ok b.policy
      → assess_replenishment py b (aware now) ≡ ok a
      → a.replenishment_required ≡ true
      → (do
        p ← build_plan py a x b.policy.rule_version
        upgrade_inventory_binding (build_approval_binding b p))
        ≡ ok (required_binding py b a)
  unfolding build_plan upgrade_inventory_binding build_approval_binding
  build_plan-upgrade_inventory_binding b now x a v h required =
      ground (arith, assess_replenishment-Assesses py b now {a = a} v h)
