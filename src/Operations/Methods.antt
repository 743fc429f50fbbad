-- ===== src/Operations/Methods.antt =====
-- The public methods of the repository that change an operation: each is a `_transition` with its
-- arguments, behind the checks that run before the transaction.
use opercerta.Common.{String, Bool, true, false, not, ◌&&◌, Option, none, some, ◌==◌}
use opercerta.Domain.Errors.{Uuid, value_error, raise_if}
use opercerta.Domain.Values.{DateTime, require_timezone, Digest}
use opercerta.Domain.Scenarios.{ApprovalBinding}
use opercerta.Domain.Facts.{
  Bundle, Assessment, Plan, EvidenceContent, Outcome, OperationResult, OperationError,
}
use opercerta.Store.Tx.{Tx, lift, ◌>>=◌, ◌>>◌}
use opercerta.Operations.Checks.{require_plan_matches_assessment}
use opercerta.Operations.EvidenceRows.{EvidenceStamp}
use opercerta.Operations.Transition.{Stamp, transition}
use opercerta.Operations.Arguments.{
  gathering_evidence, evidence_recorded, plan_validated, query_assessed, reporting,
  awaiting_approval, needs_reapproval, verifier_aborted, executing, verifying, completed,
  rejected_by, completed_without_action, failed, expired,
}

unfoldable pub mark_gathering_evidence : Uuid → Stamp → Tx Bool
mark_gathering_evidence id at = transition id gathering_evidence at

unfoldable pub record_evidence :
    (EvidenceContent → Digest) → Uuid → Bundle → EvidenceStamp → Stamp → Tx Bool
record_evidence hash_json id bundle rows at =
    transition id (evidence_recorded hash_json id bundle rows) at

unfoldable pub record_validated_plan : Uuid → Assessment → Option Plan → Stamp → Tx Bool
record_validated_plan id a plan at = do
  lift (require_plan_matches_assessment a plan)
  transition id (plan_validated a plan) at

unfoldable pub record_query_assessment : Uuid → Assessment → Stamp → Tx Bool
record_query_assessment id a at = transition id (query_assessed a) at

unfoldable pub mark_reporting : Uuid → Stamp → Tx Bool
mark_reporting id at = transition id reporting at

unfoldable pub mark_awaiting_approval : Uuid → ApprovalBinding → DateTime → Stamp → Tx Bool
mark_awaiting_approval id binding expires_at at = do
  expires ← lift (require_timezone expires_at)
  transition id (awaiting_approval binding expires) at

unfoldable pub mark_needs_reapproval :
    Uuid → Uuid → Bundle → Assessment → Plan → ApprovalBinding → DateTime → String → Stamp → Tx Bool
mark_needs_reapproval id approval_id bundle a plan binding expires_at reason at = do
  expires ← lift (require_timezone expires_at)
  transition id (needs_reapproval id approval_id bundle a plan binding expires reason) at

unfoldable pub mark_verifier_aborted : Uuid → Uuid → String → Stamp → Tx Bool
mark_verifier_aborted id approval_id reason at =
    transition id (verifier_aborted id approval_id reason) at

unfoldable pub mark_executing : Uuid → Uuid → Stamp → Tx Bool
mark_executing id approval_id at = transition id (executing id approval_id) at

unfoldable pub mark_verifying : Uuid → Uuid → Stamp → Tx Bool
mark_verifying id work_order_id at = transition id (verifying id work_order_id) at

abbrev is_work_order : Outcome → Bool
is_work_order Outcome.work_order_completed = true
is_work_order _ = false

abbrev is_this : Uuid → Option Uuid → Bool
is_this id none = false
is_this id (some j) = j == id

unfoldable pub mark_completed : Uuid → OperationResult → Uuid → Stamp → Tx Bool
mark_completed id result work_order_id at = do
  lift (
      raise_if (not (is_work_order result.outcome && is_this work_order_id result.work_order_id))
        (value_error "completed result must match work order"))
  transition id (completed id result work_order_id) at

unfoldable pub mark_rejected : Uuid → Uuid → Stamp → Tx Bool
mark_rejected id approval_id at = transition id (rejected_by id approval_id) at

abbrev is_none : Option Uuid → Bool
is_none none = true
is_none (some _) = false

unfoldable pub complete_without_replenishment : Uuid → OperationResult → Stamp → Tx Bool
complete_without_replenishment id result at = do
  lift (
      raise_if (not (not (is_work_order result.outcome) && is_none result.work_order_id))
        (value_error "non-action result must not reference a work order"))
  transition id (completed_without_action result) at

unfoldable pub mark_failed : Uuid → OperationError → Stamp → Tx Bool
mark_failed id error at = transition id (failed error) at

unfoldable pub mark_expired : Uuid → DateTime → Stamp → Tx Bool
mark_expired id now_at at = do now ← lift (require_timezone now_at); transition id (expired now) at
