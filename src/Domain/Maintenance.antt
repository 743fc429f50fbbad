-- ===== src/Domain/Maintenance.antt =====
-- domain/maintenance.py: is a machine to be repaired, why, and how urgently.
pub mod Priority
use opercerta.Common.{
  ℕ, ◌+◌, ◌-◌, ◌/◌, ℤ, pos, String, String-discrete, Bool, true, false, not, ◌||◌, ◌&&◌, Option,
  some, List, [], ◌∷◌, ltb, leb, ◌==◌, ite, if◌then◌else◌,
}
use opercerta.Domain.Errors.{
  Uuid, Result, ok, err, value_error, evidence_expired, raise_if, ◌>>=◌, ◌>>◌,
}
use opercerta.Domain.Values.{
  DateTime, require_timezone, seconds, JsonValue, null, bool, text, JsonObject, Digest, Runtime,
  hash_payload,
}
use opercerta.Domain.Contracts.{is_none, differ}
use opercerta.Domain.Scenarios.{
  ScenarioKind, MaintenancePriority, normal, high, urgent, ActionParameters, ApprovalBinding,
  require_matching_scenario,
}
use opercerta.Domain.Replenishment.{ModelPlanExplanation}

pub data EquipmentState : Type 0 where
  healthy degraded offline : EquipmentState

pub data AlertSeverity : Type 0 where
  none warning critical : AlertSeverity

-- the values of `allowed_alert_levels`
pub data AlertLevel : Type 0 where
  warning critical : AlertLevel

pub record EquipmentEvidence : Type 0 where
  pub evidence_id : Uuid
  pub equipment_id : String
  pub state : EquipmentState
  pub alert_code : Option String
  pub severity : AlertSeverity
  pub last_heartbeat : ℕ
  pub captured_at : ℕ
  pub source_version : String

abbrev pub is_no_severity : AlertSeverity → Bool
is_no_severity AlertSeverity.none = true
is_no_severity _ = false

unfoldable pub require_consistent_alert : EquipmentEvidence → Result EquipmentEvidence
require_consistent_alert e = do
  raise_if (differ (is_none e.alert_code) (is_no_severity e.severity))
      (value_error "alert code and severity must be present together")
  raise_if (ltb e.captured_at e.last_heartbeat)
      (value_error "last heartbeat cannot be later than capture time")
  ok e

pub record PriorityMapping : Type 0 where
  pub warning : MaintenancePriority
  pub critical : MaintenancePriority
  pub stale_heartbeat : MaintenancePriority

abbrev pub priority_rank : MaintenancePriority → ℕ
priority_rank normal = 0
priority_rank high = 1
priority_rank urgent = 2

unfoldable pub require_escalating_priorities : PriorityMapping → Result PriorityMapping
require_escalating_priorities m = do
  raise_if (ltb (priority_rank m.critical) (priority_rank m.warning))
      (value_error "critical priority cannot be lower than warning priority")
  ok m

pub record MaintenancePolicyEvidence : Type 0 where
  pub evidence_id : Uuid
  pub equipment_id : String
  pub allowed_alert_levels : List AlertLevel
  pub maximum_heartbeat_age_seconds : ℕ
  pub priority_mapping : PriorityMapping
  pub evidence_ttl_seconds : ℕ
  pub rule_version : String
  pub captured_at : ℕ

-- `len(value) != len(set(value))` for a tuple of two possible values
abbrev has_duplicates : List AlertLevel → Bool
has_duplicates [] = false
has_duplicates (x ∷ []) = false
has_duplicates (AlertLevel.warning ∷ AlertLevel.warning ∷ _) = true
has_duplicates (AlertLevel.critical ∷ AlertLevel.critical ∷ _) = true
has_duplicates (_ ∷ _ ∷ []) = false
has_duplicates (_ ∷ _ ∷ _ ∷ _) = true

abbrev is_empty {ℓ} : {A : Type ℓ} → List A → Bool
is_empty [] = true
is_empty (_ ∷ _) = false

unfoldable pub require_unique_alert_levels : List AlertLevel → Result (List AlertLevel)
require_unique_alert_levels levels = do
  raise_if (is_empty levels || has_duplicates levels)
      (value_error "allowed alert levels must be non-empty and unique")
  ok levels

pub record MaintenanceEvidenceBundle : Type 0 where
  pub equipment : EquipmentEvidence
  pub policy : MaintenancePolicyEvidence

unfoldable pub require_matching_equipment :
    MaintenanceEvidenceBundle → Result MaintenanceEvidenceBundle
require_matching_equipment b =
    ite (String-discrete b.equipment.equipment_id b.policy.equipment_id)
      (do
        raise_if (b.equipment.evidence_id == b.policy.evidence_id)
            (value_error "equipment and policy evidence IDs must differ")
        ok b)
      (err (value_error "equipment and policy equipment ID must match"))

pub data MaintenanceReason : Type 0 where
  alert stale_heartbeat : MaintenanceReason

pub record MaintenanceAssessment : Type 0 where
  pub equipment_id : String
  pub state : EquipmentState
  pub alert_code : Option String
  pub maintenance_required : Bool
  pub reason : Option MaintenanceReason
  pub priority : Option MaintenancePriority
  pub heartbeat_age_seconds : ℕ
  pub decision_facts_hash : Digest

pub record MaintenancePlan : Type 0 where
  pub equipment_id : String
  pub alert_code : String
  pub priority : MaintenancePriority
  pub decision_facts_hash : Digest
  pub rule_version : String
  pub summary : String
  pub rationale : String
  pub plan_hash : Digest

-- `severity.value in allowed_alert_levels`
abbrev pub allowed : AlertSeverity → List AlertLevel → Bool
allowed _ [] = false
allowed AlertSeverity.warning (AlertLevel.warning ∷ _) = true
allowed AlertSeverity.critical (AlertLevel.critical ∷ _) = true
allowed s (_ ∷ rest) = allowed s rest

-- `getattr(priority_mapping, severity.value)`; the mapping has no field for "none"
abbrev pub alert_priority : PriorityMapping → AlertSeverity → Option MaintenancePriority
alert_priority m AlertSeverity.none = Option.none
alert_priority m AlertSeverity.warning = some m.warning
alert_priority m AlertSeverity.critical = some m.critical

-- the local variables `reason`, `priority` and `alert_code`
pub record Finding : Type 0 where
  pub reason : Option MaintenanceReason
  pub priority : Option MaintenancePriority
  pub alert_code : Option String

-- `if alert_allowed: …`
abbrev pub after_alert : MaintenanceEvidenceBundle → Bool → Finding
after_alert b alert_allowed =
    if alert_allowed
    then (record {
      reason = some alert;
      priority = alert_priority b.policy.priority_mapping b.equipment.severity;
      alert_code = b.equipment.alert_code;
    })
    else (record {
      reason = Option.none;
      priority = Option.none;
      alert_code = b.equipment.alert_code;
    })

-- `priority is None or rank(stale_heartbeat) > rank(priority)`
abbrev pub outranks : MaintenancePriority → Option MaintenancePriority → Bool
outranks p Option.none = true
outranks p (some q) = ltb (priority_rank q) (priority_rank p)

-- `if stale and …: …`
abbrev pub after_stale : MaintenanceEvidenceBundle → Bool → Finding → Finding
after_stale b stale f =
    let p = b.policy.priority_mapping.stale_heartbeat in
    if stale && outranks p f.priority
    then (record {
      reason = some stale_heartbeat;
      priority = some p;
      alert_code = some "STALE_HEARTBEAT";
    })
    else f

-- `max(0, int((now - last_heartbeat).total_seconds()))`: the division cuts towards 0
abbrev pub heartbeat_age : MaintenanceEvidenceBundle → ℕ → ℕ
heartbeat_age b now = (now - b.equipment.last_heartbeat) / 1000000

abbrev pub is_stale : MaintenanceEvidenceBundle → ℕ → Bool
is_stale b now = ltb b.policy.maximum_heartbeat_age_seconds (heartbeat_age b now)

abbrev pub alert_allowed : MaintenanceEvidenceBundle → Bool
alert_allowed b = allowed b.equipment.severity b.policy.allowed_alert_levels

abbrev pub is_expired : MaintenanceEvidenceBundle → ℕ → Bool
is_expired b now =
    let ttl = seconds b.policy.evidence_ttl_seconds in
    leb (b.equipment.captured_at + ttl) now || leb (b.policy.captured_at + ttl) now

abbrev text_or_null : Option String → JsonValue
text_or_null Option.none = null
text_or_null (some s) = text s

abbrev pub priority_value : MaintenancePriority → String
priority_value normal = "normal"
priority_value high = "high"
priority_value urgent = "urgent"

abbrev priority_or_null : Option MaintenancePriority → JsonValue
priority_or_null Option.none = null
priority_or_null (some p) = text (priority_value p)

abbrev reason_or_null : Option MaintenanceReason → JsonValue
reason_or_null Option.none = null
reason_or_null (some alert) = text "alert"
reason_or_null (some stale_heartbeat) = text "stale_heartbeat"

abbrev severity_value : AlertSeverity → String
severity_value AlertSeverity.none = "none"
severity_value AlertSeverity.warning = "warning"
severity_value AlertSeverity.critical = "critical"

abbrev pub state_value : EquipmentState → String
state_value healthy = "healthy"
state_value degraded = "degraded"
state_value offline = "offline"

abbrev pub maintenance_facts :
    Runtime → MaintenanceEvidenceBundle → Finding → Bool → Bool → JsonObject
maintenance_facts py b f stale is_allowed =
    ("alert_code", text_or_null f.alert_code)
    ∷ ("alert_allowed", bool is_allowed)
    ∷ ("equipment_id", text b.equipment.equipment_id)
    ∷ ("heartbeat_stale", bool stale)
    ∷ ("last_heartbeat", text (py.isoformat b.equipment.last_heartbeat))
    ∷ ("maintenance_required", bool (stale || is_allowed))
    ∷ ("priority", priority_or_null f.priority)
    ∷ ("reason", reason_or_null f.reason)
    ∷ ("severity", text (severity_value b.equipment.severity))
    ∷ ("source_version", text b.equipment.source_version)
    ∷ ("state", text (state_value b.equipment.state))
    ∷ []

-- the values of `reason`, `priority` and `alert_code` after both tests
abbrev pub finding : MaintenanceEvidenceBundle → ℕ → Finding
finding b now = after_stale b (is_stale b now) (after_alert b (alert_allowed b))

unfoldable pub assess_maintenance :
    Runtime → MaintenanceEvidenceBundle → DateTime → Result MaintenanceAssessment
unfolding require_timezone
assess_maintenance py b at = do
  now ← require_timezone at
  raise_if (is_expired b now) evidence_expired
  ok (record {
    equipment_id = b.equipment.equipment_id;
    state = b.equipment.state;
    alert_code = (finding b now).alert_code;
    maintenance_required = is_stale b now || alert_allowed b;
    reason = (finding b now).reason;
    priority = (finding b now).priority;
    heartbeat_age_seconds = heartbeat_age b now;
    decision_facts_hash =
        hash_payload py (maintenance_facts py b (finding b now) (is_stale b now) (alert_allowed b));
  })

abbrev pub maintenance_plan_facts :
    String → Digest → String → MaintenancePriority → String → JsonObject
maintenance_plan_facts code facts_hash equipment p version =
    ("action", text "repair_equipment")
    ∷ ("alert_code", text code)
    ∷ ("decision_facts_hash", text facts_hash)
    ∷ ("equipment_id", text equipment)
    ∷ ("priority", text (priority_value p))
    ∷ ("rule_version", text version)
    ∷ []

abbrev maintenance_plan_for :
    Runtime
    → MaintenanceAssessment
    → ModelPlanExplanation
    → String
    → String
    → MaintenancePriority
    → MaintenancePlan
maintenance_plan_for py a explanation version code p = record {
  equipment_id = a.equipment_id;
  alert_code = code;
  priority = p;
  decision_facts_hash = a.decision_facts_hash;
  rule_version = version;
  summary = explanation.summary;
  rationale = explanation.rationale;
  plan_hash =
      hash_payload py (maintenance_plan_facts code a.decision_facts_hash a.equipment_id p version);
}

-- the three parts of the guard of `build_maintenance_plan`
abbrev repair_facts :
    Bool → Option String → Option MaintenancePriority → Result (String × MaintenancePriority)
repair_facts true (some code) (some p) = ok (code, p)
repair_facts _ _ _ = err (value_error "maintenance plan requires a repair assessment")

unfoldable pub build_maintenance_plan :
    Runtime → MaintenanceAssessment → ModelPlanExplanation → String → Result MaintenancePlan
build_maintenance_plan py a explanation rule_version = do
  facts ← repair_facts a.maintenance_required a.alert_code a.priority
  ok (maintenance_plan_for py a explanation (py.strip rule_version) facts.0 facts.1)

unfoldable pub build_maintenance_approval_binding :
    MaintenanceEvidenceBundle → MaintenancePlan → Result ApprovalBinding
unfolding require_matching_scenario
build_maintenance_approval_binding b plan = require_matching_scenario (record {
  scenario = ScenarioKind.equipment;
  subject_evidence_id = b.equipment.evidence_id;
  policy_evidence_id = b.policy.evidence_id;
  rule_version = plan.rule_version;
  decision_facts_hash = plan.decision_facts_hash;
  plan_hash = plan.plan_hash;
  parameters = ActionParameters.repair plan.alert_code plan.priority;
})
