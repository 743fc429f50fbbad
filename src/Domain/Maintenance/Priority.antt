-- ===== src/Domain/Maintenance/Priority.antt =====
-- The assessment of domain/maintenance.py: its priority, its reason and its alert code.
use opercerta.Common.{
  ℕ, ◌+◌, ◌≤◌, ◌<◌, ◌≡◌, ◌≢◌, refl, ◌↔◌, inl, inr, Bool, true, false, Option, some, arith, String,
  max, List, [], ◌∷◌, Option-cases,
}
use opercerta.Domain.Errors.{ok, ◌>>=◌}
use opercerta.Domain.Values.{aware, Runtime}
use opercerta.Domain.Scenarios.{ApprovalBinding, ScenarioKind, MaintenancePriority, repair}
use opercerta.Domain.Replenishment.{ModelPlanExplanation}
use opercerta.Domain.Maintenance.{
  MaintenanceEvidenceBundle, MaintenanceAssessment, require_consistent_alert, assess_maintenance,
  build_maintenance_plan, build_maintenance_approval_binding, priority_rank, is_stale,
  alert_allowed, alert_priority, maintenance_plan_facts, alert, stale_heartbeat, AlertSeverity,
  AlertLevel, allowed,
}

-- the rank of what calls for a repair: 0 for nothing, and one more than `priority_rank` otherwise
abbrev pub level : Bool → Option MaintenancePriority → ℕ
level true (some p) = priority_rank p + 1
level _ _ = 0

abbrev pub stale_level : MaintenanceEvidenceBundle → ℕ → ℕ
stale_level b now = level (is_stale b now) (some b.policy.priority_mapping.stale_heartbeat)

abbrev pub alert_level : MaintenanceEvidenceBundle → ℕ
alert_level b =
    level (alert_allowed b) (alert_priority b.policy.priority_mapping b.equipment.severity)

not_allowed : (levels : List AlertLevel) → allowed AlertSeverity.none levels ≡ false
not_allowed [] = refl
not_allowed (AlertLevel.warning ∷ levels) = not_allowed levels
not_allowed (AlertLevel.critical ∷ levels) = not_allowed levels

-- the binding that a repair comes to
abbrev pub repair_binding :
    Runtime
    → MaintenanceEvidenceBundle
    → MaintenanceAssessment
    → String
    → MaintenancePriority
    → ApprovalBinding
repair_binding py b a code p =
    let version = py.strip b.policy.rule_version in
    record {
      scenario = ScenarioKind.equipment;
      subject_evidence_id = b.equipment.evidence_id;
      policy_evidence_id = b.policy.evidence_id;
      rule_version = version;
      decision_facts_hash = a.decision_facts_hash;
      plan_hash =
          py.sha256 (maintenance_plan_facts code a.decision_facts_hash a.equipment_id p version);
      parameters = repair code p;
    }

module _ (py : Runtime) (b : MaintenanceEvidenceBundle) (now : ℕ) (a : MaintenanceAssessment)
    (h : assess_maintenance py b (aware now) ≡ ok a) where
  -- The priority of a maintenance assessment that succeeds has the greater rank of those that a
  -- stale heartbeat and an allowed alert call for, and maintenance is required exactly when one
  -- of them calls for it.
  pub assess_maintenance-priority :
      (level a.maintenance_required a.priority ≡ max (stale_level b now) (alert_level b))
      × ((a.maintenance_required ≡ true) ↔ (0 < max (stale_level b now) (alert_level b)))
  unfolding assess_maintenance
  assess_maintenance-priority = ground (arith, not_allowed b.policy.allowed_alert_levels)

  -- The reason of a maintenance assessment that succeeds is the stale heartbeat exactly when its
  -- rank is above that of the alert, and the alert exactly when the alert calls for maintenance
  -- with at least the rank of the heartbeat.
  pub assess_maintenance-reason :
      ((a.reason ≡ some stale_heartbeat) ↔ (alert_level b < stale_level b now))
      × ((a.reason ≡ some alert) ↔ ((0 < alert_level b) × (stale_level b now ≤ alert_level b)))
  unfolding assess_maintenance
  assess_maintenance-reason = ground (arith, not_allowed b.policy.allowed_alert_levels)

  repair_code :
      require_consistent_alert b.equipment ≡ ok b.equipment
      → a.maintenance_required ≡ true
      → (a.alert_code ≢ Option.none) × (a.priority ≢ Option.none)
  unfolding assess_maintenance require_consistent_alert
  repair_code v required = ground (arith, not_allowed b.policy.allowed_alert_levels)

  -- For equipment with a consistent alert, an assessment that requires maintenance has an alert
  -- code and a priority, and always gives a plan and a binding with them.
  pub build_maintenance_plan_total :
      (x : ModelPlanExplanation)
      → require_consistent_alert b.equipment ≡ ok b.equipment
      → a.maintenance_required ≡ true
      → (code : String) × (p : MaintenancePriority) × (a.alert_code ≡ some code)
        × (a.priority ≡ some p)
        × ((do
          plan ← build_maintenance_plan py a x b.policy.rule_version
          build_maintenance_approval_binding b plan)
            ≡ ok (repair_binding py b a code p))
  unfolding build_maintenance_plan build_maintenance_approval_binding
  build_maintenance_plan_total x v required =
      let facts = repair_code v required in
      elim (Option-cases a.alert_code) [
        | inl e ↦ absurd (facts.0 e)
        | inr (code, e) ↦ elim (Option-cases a.priority) [
          | inl f ↦ absurd (facts.1 f)
          | inr (p, f) ↦ (code, p, e, f, ground arith)
        ]
      ]
