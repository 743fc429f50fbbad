-- ===== src/Operations/Arguments.antt =====
-- The arguments with which the `mark_…` and `record_…` methods call `_transition`.
use opercerta.Common.{ℕ, String, Bool, true, false, not, Option, none, some}
use opercerta.Domain.Status.{OperationStatus, is_terminal}
use opercerta.Domain.Errors.{Uuid, Result, ok, err}
use opercerta.Domain.Values.{Digest}
use opercerta.Domain.Scenarios.{ApprovalBinding}
use opercerta.Domain.Facts.{
  Bundle, Assessment, Plan, EvidenceContent, OperationResult, OperationError, OperationSnapshot,
  approved, rejected,
}
use opercerta.Store.Schema.{
  ResultPayload, EventType, EventPayload, empty, of_bundle, of_plan, of_assessment, of_binding,
  of_reapproval, of_abort, of_approval, of_work_order, of_result, of_error,
}
use opercerta.Store.Tx.{pure}
use opercerta.Operations.Checks.{work_order_payload}
use opercerta.Operations.Snapshots.{with_evidence, with_binding, require_binding_matches_snapshot}
use opercerta.Operations.EvidenceRows.{EvidenceStamp, save_evidence}
use opercerta.Operations.Locators.{require_approval_locator, require_work_order_locator}
use opercerta.Operations.Transition.{unset, to, Transition}

-- a transition with the default keyword arguments
abbrev pub plain :
    (OperationStatus → Bool) → OperationStatus → EventType → EventPayload → Transition
plain allowed target event_type payload = record {
  allowed = allowed;
  target = target;
  event_type = event_type;
  payload = payload;
  snapshot_builder = λ s. ok s;
  transaction_validator = λ db. ok tt;
  transaction_write = pure tt;
  result_payload = unset;
  error_code = unset;
  approval_expires_at = unset;
  approval_cycle = unset;
  increment_approval_cycle = false;
  due_at = none;
}

-- the sets of statuses that the methods allow
abbrev pub from_received : OperationStatus → Bool
from_received OperationStatus.received = true
from_received _ = false

abbrev pub from_gathering : OperationStatus → Bool
from_gathering OperationStatus.gathering_evidence = true
from_gathering _ = false

abbrev pub from_planning : OperationStatus → Bool
from_planning OperationStatus.planning = true
from_planning _ = false

abbrev pub from_validating : OperationStatus → Bool
from_validating OperationStatus.validating = true
from_validating _ = false

abbrev pub from_reporting : OperationStatus → Bool
from_reporting OperationStatus.reporting = true
from_reporting _ = false

abbrev pub from_resuming : OperationStatus → Bool
from_resuming OperationStatus.resuming = true
from_resuming _ = false

abbrev pub from_executing : OperationStatus → Bool
from_executing OperationStatus.executing = true
from_executing _ = false

abbrev pub from_verifying : OperationStatus → Bool
from_verifying OperationStatus.verifying = true
from_verifying _ = false

abbrev pub is_pending : OperationStatus → Bool
is_pending OperationStatus.awaiting_approval = true
is_pending OperationStatus.needs_reapproval = true
is_pending _ = false

abbrev pub is_active : OperationStatus → Bool
is_active s = not (is_terminal s)

abbrev pub gathering_evidence : Transition
gathering_evidence =
    plain from_received OperationStatus.gathering_evidence EventType.evidence_gathering_started
      empty

abbrev pub evidence_recorded :
    (EvidenceContent → Digest) → Uuid → Bundle → EvidenceStamp → Transition
evidence_recorded hash_json id bundle stamp =
    record (plain from_gathering OperationStatus.planning EventType.evidence_recorded
      (of_bundle bundle)) {
        snapshot_builder = λ s. ok (with_evidence bundle s);
        transaction_write = save_evidence hash_json id bundle stamp;
      }

-- the snapshot with an assessment and a plan
abbrev pub with_plan : Assessment → Option Plan → OperationSnapshot → OperationSnapshot
with_plan a plan s = record s {
  risk = record (s.risk) { assessment = some a };
  plan = plan;
  work_order_payload = work_order_payload plan;
}

abbrev pub plan_validated : Assessment → Option Plan → Transition
plan_validated a plan =
    record (plain from_planning OperationStatus.validating EventType.plan_validated
      (of_plan a plan)) { snapshot_builder = λ s. ok (with_plan a plan s) }

abbrev pub query_assessed : Assessment → Transition
query_assessed a =
    record (plain from_planning OperationStatus.validating EventType.query_assessed
      (of_assessment a)) { snapshot_builder = λ s. ok (with_plan a none s) }

abbrev pub reporting : Transition
reporting = plain from_validating OperationStatus.reporting EventType.reporting_started empty

-- `bind`
abbrev pub bind_snapshot : ApprovalBinding → OperationSnapshot → Result OperationSnapshot
bind_snapshot binding s = elim (require_binding_matches_snapshot s binding) [
  | ok _ ↦ ok (with_binding binding s)
  | err e ↦ err e
]

abbrev pub awaiting_approval : ApprovalBinding → ℕ → Transition
awaiting_approval binding expires =
    record (plain from_validating OperationStatus.awaiting_approval EventType.approval_requested
      (of_binding expires binding)) {
        snapshot_builder = bind_snapshot binding;
        approval_expires_at = to (some expires);
        approval_cycle = to 1;
      }

-- `replace_approved_facts`
abbrev pub replaced :
    Bundle → Assessment → Plan → ApprovalBinding → OperationSnapshot → OperationSnapshot
replaced bundle a plan binding s = record {
  request = s.request;
  risk = record { evidence = some bundle; assessment = some a; approval_binding = some binding };
  plan = some plan;
  work_order_payload = work_order_payload (some plan);
}

abbrev pub replace_approved_facts :
    Bundle → Assessment → Plan → ApprovalBinding → OperationSnapshot → Result OperationSnapshot
replace_approved_facts bundle a plan binding s =
    elim (require_binding_matches_snapshot (replaced bundle a plan binding s) binding) [
      | ok _ ↦ ok (replaced bundle a plan binding s)
      | err e ↦ err e
    ]

abbrev pub needs_reapproval :
    Uuid → Uuid → Bundle → Assessment → Plan → ApprovalBinding → ℕ → String → Transition
needs_reapproval id approval_id bundle a plan binding expires reason =
    record (plain from_resuming OperationStatus.needs_reapproval EventType.reapproval_requested
      (of_reapproval approval_id reason binding)) {
        snapshot_builder = replace_approved_facts bundle a plan binding;
        transaction_validator = require_approval_locator id approval_id approved;
        approval_expires_at = to (some expires);
        increment_approval_cycle = true;
      }

abbrev pub verifier_aborted : Uuid → Uuid → String → Transition
verifier_aborted id approval_id reason =
    record (plain from_resuming OperationStatus.aborted EventType.verification_aborted
      (of_abort approval_id reason)) {
        transaction_validator = require_approval_locator id approval_id approved;
        approval_expires_at = to none;
      }

abbrev pub executing : Uuid → Uuid → Transition
executing id approval_id =
    record (plain from_resuming OperationStatus.executing EventType.execution_started
      (of_approval approval_id)) {
        transaction_validator = require_approval_locator id approval_id approved;
      }

abbrev pub verifying : Uuid → Uuid → Transition
verifying id work_order_id =
    record (plain from_executing OperationStatus.verifying EventType.verification_started
      (of_work_order work_order_id)) {
        transaction_validator = require_work_order_locator id work_order_id;
      }

abbrev pub completed : Uuid → OperationResult → Uuid → Transition
completed id result work_order_id =
    record (plain from_verifying OperationStatus.completed EventType.operation_completed
      (of_result result)) {
        transaction_validator = require_work_order_locator id work_order_id;
        result_payload = to (some (ResultPayload.result result));
        error_code = to none;
      }

abbrev pub rejected_by : Uuid → Uuid → Transition
rejected_by id approval_id =
    record (plain from_resuming OperationStatus.rejected EventType.operation_rejected
      (of_approval approval_id)) {
        transaction_validator = require_approval_locator id approval_id rejected;
      }

abbrev pub completed_without_action : OperationResult → Transition
completed_without_action result =
    record (plain from_reporting OperationStatus.completed EventType.operation_completed
      (of_result result)) {
        result_payload = to (some (ResultPayload.result result));
        error_code = to none;
      }

abbrev pub failed : OperationError → Transition
failed error =
    record (plain is_active OperationStatus.failed EventType.operation_failed (of_error error)) {
      result_payload = to (some (ResultPayload.error error));
      error_code = to (some error.code);
    }

abbrev pub expired : ℕ → Transition
expired now = record (plain is_pending OperationStatus.expired EventType.approval_expired empty) {
  due_at = some now;
}
