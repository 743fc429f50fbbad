-- ===== src/Store/Schema.antt =====
-- The tables of infrastructure/db/schema.py that the modelled repositories use.
use opercerta.Common.{ℕ, String, String-discrete, ℕ_discrete, Option, List, []}
use opercerta.Domain.Status.{OperationStatus}
use opercerta.Domain.Errors.{Uuid}
use opercerta.Domain.Values.{JsonObject, Digest}
use opercerta.Domain.Contracts.{OperationRequest, ObjectType}
use opercerta.Domain.Scenarios.{ApprovalBinding, InventoryBinding}
use opercerta.Domain.Facts.{
  Bundle, Assessment, Plan, EvidenceContent, OperationResult, OperationError, OperationSnapshot,
  ApprovalDecision,
}
use opercerta.Store.Table.{Table}

-- `result_payload` holds the result of a completed operation or the error of a failed one
pub data ResultPayload : Type 0 where
  result : OperationResult → ResultPayload
  error : OperationError → ResultPayload

-- A status is `none` where the column's text is no `OperationStatus`, and a payload is `none` where
-- the column's JSON does not validate.
pub record Operation : Type 0 where
  pub thread_id : Uuid
  pub request_payload : Option OperationSnapshot
  pub status : Option OperationStatus
  pub result_payload : Option ResultPayload
  pub error_code : Option String
  pub approval_expires_at : Option ℕ
  pub approval_cycle : ℕ
  pub next_audit_sequence : ℕ
  pub created_at : ℕ
  pub updated_at : ℕ

pub data SignalStatus : Type 0 where
  open_ investigating resolved attention_required : SignalStatus

pub data SignalType : Type 0 where
  inventory_shortage equipment_attention task_blocked : SignalType

pub data SignalSeverity : Type 0 where
  low medium high : SignalSeverity

-- A dedup key is a text with a prefix for each kind of key; it is kept as its parts.
pub data DedupKey : Type 0 where
  detected : SignalType → String → Digest → DedupKey
  retry : Uuid → DedupKey

pub record Signal : Type 0 where
  pub dedup_key : DedupKey
  pub signal_type : SignalType
  pub object_type : ObjectType
  pub object_id : String
  pub source : String
  pub severity : SignalSeverity
  pub reason_code : String
  pub facts_hash : Digest
  pub facts : JsonObject
  pub status : SignalStatus
  pub operation_id : Option Uuid
  pub predecessor_signal_id : Option Uuid
  pub detected_at : ℕ
  pub updated_at : ℕ
  pub resolved_at : Option ℕ

-- the six columns of the older binding are written together or not at all
pub record Approval : Type 0 where
  pub operation_id : Uuid
  pub approver_id : String
  pub decision : Option ApprovalDecision
  pub reason : String
  pub approval_cycle : ℕ
  pub inventory_binding : Option InventoryBinding
  pub subject_evidence_id : Option Uuid
  pub binding_payload : Option ApprovalBinding
  pub created_at : ℕ

-- the columns of a row of evidence that come from a bundle
pub record Specification : Type 0 where
  pub evidence_id : Uuid
  pub evidence_type : String
  pub source_tool : String
  pub source_version : String
  pub captured_at : ℕ
  pub expires_at : ℕ
  pub content : EvidenceContent
  pub content_hash : Digest

unfoldable pub Specification-discrete : Discrete Specification
Specification-discrete = hlevel (ℕ_discrete, String-discrete)

pub record Evidence : Type 0 where
  pub operation_id : Uuid
  pub specification : Specification
  pub created_at : ℕ

-- The idempotency key is a prefix and the operation's id, and is kept as that id; the status is
-- always "created".
pub record WorkOrder : Type 0 where
  pub operation_id : Uuid
  pub idempotency_key : Uuid
  pub payload : JsonObject
  pub payload_hash : Digest
  pub created_at : ℕ
  pub updated_at : ℕ

pub data EventType : Type 0 where
  operation_received evidence_gathering_started evidence_recorded : EventType
  plan_validated query_assessed reporting_started : EventType
  approval_requested reapproval_requested verification_aborted : EventType
  execution_started verification_started operation_completed : EventType
  operation_rejected operation_failed approval_expired : EventType
  approval_recorded work_order_created : EventType

-- the JSON objects that the events carry, one constructor for each set of keys
pub data EventPayload : Type 0 where
  empty : EventPayload
  of_request : OperationRequest → EventPayload
  of_bundle : Bundle → EventPayload
  of_plan : Assessment → Option Plan → EventPayload
  of_assessment : Assessment → EventPayload
  of_binding : ℕ → ApprovalBinding → EventPayload
  of_reapproval : Uuid → String → ApprovalBinding → EventPayload
  of_abort : Uuid → String → EventPayload
  of_approval : Uuid → EventPayload
  of_work_order : Uuid → EventPayload
  of_result : OperationResult → EventPayload
  of_error : OperationError → EventPayload
  of_expiry : ℕ → EventPayload
  of_decision : Uuid → ApprovalDecision → ℕ → EventPayload
  of_created : Uuid → Uuid → Digest → EventPayload
  of_version : ℕ → EventPayload

unfoldable pub EventType-discrete : Discrete EventType
EventType-discrete = hlevel

unfoldable pub EventPayload-discrete : Discrete EventPayload
EventPayload-discrete = hlevel (ℕ_discrete, String-discrete)

pub record AuditEvent : Type 0 where
  pub id : Uuid
  pub operation_id : Uuid
  pub sequence : ℕ
  pub event_type : EventType
  pub payload : EventPayload
  pub created_at : ℕ

-- Rows are added at the front; no statement depends on their order.
pub record Db : Type 0 where
  pub operations : Table Operation
  pub approvals : Table Approval
  pub evidence : Table Evidence
  pub work_orders : Table WorkOrder
  pub operational_signals : Table Signal
  pub audit_events : List AuditEvent

abbrev pub empty_db : Db
empty_db = record {
  operations = [];
  approvals = [];
  evidence = [];
  work_orders = [];
  operational_signals = [];
  audit_events = [];
}
