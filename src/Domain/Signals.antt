-- ===== src/Domain/Signals.antt =====
-- domain/signals.py: when an assessment is worth a signal, and under which key it is kept.
use opercerta.Common.{ℕ, pos, String, Bool, true, false, Option, none, some, [], ◌∷◌}
use opercerta.Domain.Errors.{Uuid, Result, ok, ◌>>=◌}
use opercerta.Domain.Values.{
  DateTime, require_timezone, JsonValue, null, number, text, JsonObject, Digest,
}
use opercerta.Domain.Contracts.{ObjectType}
use opercerta.Domain.Scenarios.{MaintenancePriority}
use opercerta.Domain.Replenishment.{ReplenishmentAssessment, number_or_null}
use opercerta.Domain.Maintenance.{
  MaintenanceAssessment, MaintenanceReason, priority_value, state_value,
}
use opercerta.Domain.TaskRecovery.{
  TaskRecoveryAssessment, TaskRecoveryReason, task_state_value, action_or_null,
}
use opercerta.Domain.Facts.{Assessment}
use opercerta.Store.Schema.{SignalType, SignalSeverity, DedupKey}

pub record SignalDraft : Type 0 where
  pub signal_type : SignalType
  pub object_type : ObjectType
  pub object_id : String
  pub source : String
  pub severity : SignalSeverity
  pub reason_code : String
  pub facts_hash : Digest
  pub facts : JsonObject
  pub detected_at : ℕ

abbrev text_or_null : Option String → JsonValue
text_or_null none = null
text_or_null (some s) = text s

abbrev shortage_draft : ReplenishmentAssessment → ℕ → SignalDraft
shortage_draft a at = record {
  signal_type = SignalType.inventory_shortage;
  object_type = ObjectType.inventory;
  object_id = a.sku;
  source = "demo_watchlist.v1";
  severity = SignalSeverity.medium;
  reason_code = "inventory_below_reorder_point";
  facts_hash = a.decision_facts_hash;
  facts =
      ("available_quantity", number a.available_quantity)
      ∷ ("recommended_quantity", number_or_null a.recommended_quantity)
      ∷ ("reorder_point", number (pos a.reorder_point))
      ∷ ("target_stock", number (pos a.target_stock))
      ∷ [];
  detected_at = at;
}

-- `priority in {HIGH, URGENT}`
abbrev pub severity_of : Option MaintenancePriority → SignalSeverity
severity_of (some MaintenancePriority.high) = SignalSeverity.high
severity_of (some MaintenancePriority.urgent) = SignalSeverity.high
severity_of _ = SignalSeverity.medium

abbrev priority_or_null : Option MaintenancePriority → JsonValue
priority_or_null none = null
priority_or_null (some p) = text (priority_value p)

abbrev pub equipment_reason : MaintenanceReason → String
equipment_reason MaintenanceReason.alert = "alert"
equipment_reason MaintenanceReason.stale_heartbeat = "stale_heartbeat"

abbrev equipment_code : MaintenanceReason → String
equipment_code MaintenanceReason.alert = "equipment_alert"
equipment_code MaintenanceReason.stale_heartbeat = "equipment_stale_heartbeat"

abbrev equipment_draft : MaintenanceAssessment → MaintenanceReason → ℕ → SignalDraft
equipment_draft a reason at = record {
  signal_type = SignalType.equipment_attention;
  object_type = ObjectType.equipment;
  object_id = a.equipment_id;
  source = "demo_watchlist.v1";
  severity = severity_of a.priority;
  reason_code = equipment_code reason;
  facts_hash = a.decision_facts_hash;
  facts =
      ("alert_code", text_or_null a.alert_code)
      ∷ ("heartbeat_age_seconds", number (pos a.heartbeat_age_seconds))
      ∷ ("priority", priority_or_null a.priority)
      ∷ ("reason", text (equipment_reason reason))
      ∷ ("state", text (state_value a.state))
      ∷ [];
  detected_at = at;
}

abbrev task_reason : TaskRecoveryReason → String
task_reason TaskRecoveryReason.blocked = "blocked"
task_reason TaskRecoveryReason.overdue = "overdue"

abbrev task_code : TaskRecoveryReason → String
task_code TaskRecoveryReason.blocked = "task_blocked"
task_code TaskRecoveryReason.overdue = "task_overdue"

abbrev task_draft : TaskRecoveryAssessment → TaskRecoveryReason → ℕ → SignalDraft
task_draft a reason at = record {
  signal_type = SignalType.task_blocked;
  object_type = ObjectType.task;
  object_id = a.task_id;
  source = "demo_watchlist.v1";
  severity = SignalSeverity.medium;
  reason_code = task_code reason;
  facts_hash = a.decision_facts_hash;
  facts =
      ("blocker_code", text_or_null a.blocker_code)
      ∷ ("reason", text (task_reason reason))
      ∷ ("recovery_action", action_or_null a.recovery_action)
      ∷ ("retry_count", number (pos a.retry_count))
      ∷ ("state", text (task_state_value a.state))
      ∷ [];
  detected_at = at;
}

-- a draft is built, and its time validated, only where the assessment calls for one
abbrev drafted : (ℕ → SignalDraft) → DateTime → Result (Option SignalDraft)
drafted make at = require_timezone at >>= λ t. ok (some (make t))

abbrev equipment_signal :
    Bool → Option MaintenanceReason → MaintenanceAssessment → DateTime → Result (Option SignalDraft)
equipment_signal true (some reason) a at = drafted (equipment_draft a reason) at
equipment_signal _ _ a at = ok none

abbrev task_signal :
    Bool
    → Option TaskRecoveryReason
    → TaskRecoveryAssessment
    → DateTime
    → Result (Option SignalDraft)
task_signal true (some reason) a at = drafted (task_draft a reason) at
task_signal _ _ a at = ok none

abbrev stock_signal : Bool → ReplenishmentAssessment → DateTime → Result (Option SignalDraft)
stock_signal false a at = ok none
stock_signal true a at = drafted (shortage_draft a) at

unfoldable pub build_signal_draft : Assessment → DateTime → Result (Option SignalDraft)
unfolding require_timezone
build_signal_draft (Assessment.replenishment a) at = stock_signal a.replenishment_required a at
build_signal_draft (Assessment.maintenance a) at =
    equipment_signal a.maintenance_required a.reason a at
build_signal_draft (Assessment.task_recovery a) at = task_signal a.recovery_required a.reason a at

-- "signal:v1:", the type, the object's id and the hash, as its parts
abbrev pub derive_signal_dedup_key : SignalDraft → DedupKey
derive_signal_dedup_key d = DedupKey.detected d.signal_type d.object_id d.facts_hash

-- "signal:retry:v1:" and the predecessor's id
abbrev pub derive_signal_retry_dedup_key : Uuid → DedupKey
derive_signal_retry_dedup_key predecessor = DedupKey.retry predecessor
