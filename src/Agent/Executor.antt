-- ===== src/Agent/Executor.antt =====
-- agent/tool_executor.py: one read behind an authorized call.
use opercerta.Common.{String, Option, none, some}
use opercerta.Domain.Errors.{Uuid, Error, Result, ok, err, type_error}
use opercerta.Domain.Values.{JsonValue, JsonObject, Digest}
use opercerta.Agent.Contracts.{ReadToolName, ToolCallProposal}

mutual
  pub data Json : Type 0 where
    scalar : JsonValue → Json
    object : Members → Json
    array : Items → Json

  pub data Members : Type 0 where
    no_members : Members
    member : String → Json → Members → Members

  pub data Items : Type 0 where
    no_items : Items
    item : Json → Items → Items

pub data CacheStatus : Type 0 where
  hit miss bypass unavailable : CacheStatus

pub data ObservationStatus : Type 0 where
  succeeded errored : ObservationStatus

pub record ToolObservation : Type 0 where
  pub tool_call_id : String
  pub tool_name : ReadToolName
  pub arguments_hash : Digest
  pub status : ObservationStatus
  pub evidence_ref : Option Uuid
  pub safe_summary : String
  pub structured_payload : Json
  pub cache_status : CacheStatus

-- a model of evidence: its `evidence_id` where that is a UUID, and its dump
pub record EvidenceModel : Type 0 where
  pub evidence_id : Option Uuid
  pub dumped : Json

-- what a gateway returns
pub data ReadResult : Type 0 where
  bare : EvidenceModel → ReadResult
  with_cache : EvidenceModel → CacheStatus → ReadResult

-- the code of an error that is among `EXPECTED_READ_FAILURES`
abbrev pub expected_failure : Error → Option String
expected_failure Error.equipment_not_found = some "equipment_not_found"
expected_failure Error.evidence_unavailable = some "evidence_unavailable"
expected_failure Error.invalid_agent_tool_arguments = some "invalid_agent_tool_arguments"
expected_failure Error.invalid_equipment_evidence = some "invalid_equipment_evidence"
expected_failure Error.invalid_inventory_evidence = some "invalid_inventory_evidence"
expected_failure Error.invalid_maintenance_policy_evidence =
    some "invalid_maintenance_policy_evidence"
expected_failure Error.invalid_policy_evidence = some "invalid_policy_evidence"
expected_failure Error.invalid_task_evidence = some "invalid_task_evidence"
expected_failure Error.invalid_task_recovery_policy_evidence =
    some "invalid_task_recovery_policy_evidence"
expected_failure Error.inventory_not_found = some "inventory_not_found"
expected_failure Error.knowledge_insufficient = some "knowledge_insufficient"
expected_failure Error.knowledge_unavailable = some "knowledge_unavailable"
expected_failure Error.task_not_found = some "task_not_found"
expected_failure _ = none

abbrev failed_observation : Digest → ToolCallProposal → String → ToolObservation
failed_observation digest p code = record {
  tool_call_id = p.tool_call_id;
  tool_name = p.tool_name;
  arguments_hash = digest;
  status = ObservationStatus.errored;
  evidence_ref = none;
  safe_summary = "只读证据不可用。";
  structured_payload = object (member "error_code" (scalar (JsonValue.text code)) no_members);
  cache_status = CacheStatus.bypass;
}

abbrev observation :
    Digest → ToolCallProposal → CacheStatus → Json → Option Uuid → Result ToolObservation
observation digest p cache dumped none = err (type_error "read_tool_evidence_invalid")
observation digest p cache dumped (some ref) = ok (record {
  tool_call_id = p.tool_call_id;
  tool_name = p.tool_name;
  arguments_hash = digest;
  status = ObservationStatus.succeeded;
  evidence_ref = some ref;
  safe_summary = "已取得并验证只读业务证据。";
  structured_payload = dumped;
  cache_status = cache;
})

abbrev rethrown_or : Error → Option String → (String → ToolObservation) → Result ToolObservation
rethrown_or e none make = err e
rethrown_or e (some code) make = ok (make code)

abbrev after_read : Digest → ToolCallProposal → Result ReadResult → Result ToolObservation
after_read digest p (err e) = rethrown_or e (expected_failure e) (failed_observation digest p)
after_read digest p (ok (bare m)) = observation digest p CacheStatus.bypass m.dumped m.evidence_id
after_read digest p (ok (with_cache m cache)) = observation digest p cache m.dumped m.evidence_id

-- `read` is the gateway, and `sha256` the hash of the canonical JSON
module _ (sha256 : JsonObject → Digest) (read : ReadToolName → JsonObject → Result ReadResult) where
  unfoldable pub execute : ToolCallProposal → Result ToolObservation
  execute p = after_read (sha256 p.arguments) p (read p.tool_name p.arguments)
