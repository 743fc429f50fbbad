-- ===== src/Operations/Calls.antt =====
-- The repository's methods as one type of calls, and the arguments with which they reach
-- `_transition`.
use opercerta.Common.{ℕ, ◌≡◌, String, Bool, Option, arith}
use opercerta.Domain.Errors.{Uuid, ok}
use opercerta.Domain.Values.{DateTime, aware, naive, require_timezone, Digest}
use opercerta.Domain.Scenarios.{ApprovalBinding}
use opercerta.Domain.Facts.{
  Bundle, Assessment, Plan, EvidenceContent, OperationResult, OperationError,
}
use opercerta.Store.Schema.{Db}
use opercerta.Store.Tx.{Tx}
use opercerta.Operations.Checks.{require_plan_matches_assessment}
use opercerta.Operations.EvidenceRows.{EvidenceStamp}
use opercerta.Operations.Transition.{Transition, Stamp, transition}
use opercerta.Operations.Frame.{WritesEvidence, pure-WritesEvidence, save_evidence-WritesEvidence}
use opercerta.Operations.Arguments
use opercerta.Operations.Methods

-- a call of a method, with its arguments behind the operation's id
pub data Call : Type 0 where
  mark_gathering_evidence : Call
  record_evidence : Bundle → EvidenceStamp → Call
  record_validated_plan : Assessment → Option Plan → Call
  record_query_assessment : Assessment → Call
  mark_reporting : Call
  mark_awaiting_approval : ApprovalBinding → DateTime → Call
  mark_needs_reapproval :
      Uuid → Bundle → Assessment → Plan → ApprovalBinding → DateTime → String → Call
  mark_verifier_aborted : Uuid → String → Call
  mark_executing : Uuid → Call
  mark_verifying : Uuid → Call
  mark_completed : OperationResult → Uuid → Call
  mark_rejected : Uuid → Call
  complete_without_replenishment : OperationResult → Call
  mark_failed : OperationError → Call
  mark_expired : DateTime → Call

module _ (hash_json : EvidenceContent → Digest) where
  unfoldable pub run : Call → Uuid → Stamp → Tx Bool
  run mark_gathering_evidence id at = Methods.mark_gathering_evidence id at
  run (record_evidence bundle rows) id at = Methods.record_evidence hash_json id bundle rows at
  run (record_validated_plan a plan) id at = Methods.record_validated_plan id a plan at
  run (record_query_assessment a) id at = Methods.record_query_assessment id a at
  run mark_reporting id at = Methods.mark_reporting id at
  run (mark_awaiting_approval c expires) id at = Methods.mark_awaiting_approval id c expires at
  run (mark_needs_reapproval k bundle a plan c expires reason) id at =
      Methods.mark_needs_reapproval id k bundle a plan c expires reason at
  run (mark_verifier_aborted k reason) id at = Methods.mark_verifier_aborted id k reason at
  run (mark_executing k) id at = Methods.mark_executing id k at
  run (mark_verifying k) id at = Methods.mark_verifying id k at
  run (mark_completed result k) id at = Methods.mark_completed id result k at
  run (mark_rejected k) id at = Methods.mark_rejected id k at
  run (complete_without_replenishment result) id at =
      Methods.complete_without_replenishment id result at
  run (mark_failed error) id at = Methods.mark_failed id error at
  run (mark_expired now) id at = Methods.mark_expired id now at

  -- the arguments that reach `_transition`
  pub data IsCall (id : Uuid) : Transition → Type 0 where
    gathering : IsCall id Arguments.gathering_evidence
    evidence :
        (bundle : Bundle) (rows : EvidenceStamp)
        → IsCall id (Arguments.evidence_recorded hash_json id bundle rows)
    plan :
        (a : Assessment) (p : Option Plan)
        → require_plan_matches_assessment a p ≡ ok tt
        → IsCall id (Arguments.plan_validated a p)
    assessed : (a : Assessment) → IsCall id (Arguments.query_assessed a)
    reporting : IsCall id Arguments.reporting
    awaiting :
        (c : ApprovalBinding) (expires : ℕ) → IsCall id (Arguments.awaiting_approval c expires)
    reapproval :
        (k : Uuid) (bundle : Bundle) (a : Assessment) (p : Plan) (c : ApprovalBinding) (expires : ℕ)
        (reason : String)
        → IsCall id (Arguments.needs_reapproval id k bundle a p c expires reason)
    abort : (k : Uuid) (reason : String) → IsCall id (Arguments.verifier_aborted id k reason)
    executing : (k : Uuid) → IsCall id (Arguments.executing id k)
    verifying : (k : Uuid) → IsCall id (Arguments.verifying id k)
    completed : (r : OperationResult) (k : Uuid) → IsCall id (Arguments.completed id r k)
    rejected : (k : Uuid) → IsCall id (Arguments.rejected_by id k)
    completed_without_action :
        (r : OperationResult) → IsCall id (Arguments.completed_without_action r)
    failed : (e : OperationError) → IsCall id (Arguments.failed e)
    expired : (now : ℕ) → IsCall id (Arguments.expired now)

  pub IsCall-WritesEvidence :
      (id : Uuid) {t : Transition} → IsCall id t → WritesEvidence t.transaction_write
  IsCall-WritesEvidence id (evidence bundle rows) =
      save_evidence-WritesEvidence hash_json id bundle rows
  IsCall-WritesEvidence id gathering = pure-WritesEvidence
  IsCall-WritesEvidence id _ = pure-WritesEvidence

  -- A method that returned has made its transition.
  pub run-IsCall :
      (c : Call) (id : Uuid) (at : Stamp) (db db' : Db) (b : Bool)
      → run c id at db ≡ ok (b, db')
      → (t : Transition) × IsCall id t × (transition id t at db ≡ ok (b, db'))
  unfolding run Methods.mark_gathering_evidence Methods.record_evidence
      Methods.record_validated_plan Methods.record_query_assessment Methods.mark_reporting
      Methods.mark_awaiting_approval Methods.mark_needs_reapproval Methods.mark_verifier_aborted
      Methods.mark_executing Methods.mark_verifying Methods.mark_completed Methods.mark_rejected
      Methods.complete_without_replenishment Methods.mark_failed Methods.mark_expired
      require_timezone
  run-IsCall mark_gathering_evidence id at db db' b h = (_, gathering, h)
  run-IsCall (record_evidence bundle rows) id at db db' b h = (_, evidence bundle rows, h)
  run-IsCall (record_validated_plan a p) id at db db' b h =
      (_, plan a p (ground arith), ground arith)
  run-IsCall (record_query_assessment a) id at db db' b h = (_, assessed a, h)
  run-IsCall mark_reporting id at db db' b h = (_, reporting, h)
  run-IsCall (mark_awaiting_approval c (aware t)) id at db db' b h = (_, awaiting c t, h)
  run-IsCall (mark_awaiting_approval c (naive t)) id at db db' b h = absurd (cc)
  run-IsCall (mark_needs_reapproval k bundle a p c (aware t) reason) id at db db' b h =
      (_, reapproval k bundle a p c t reason, h)
  run-IsCall (mark_needs_reapproval k bundle a p c (naive t) reason) id at db db' b h = absurd (cc)
  run-IsCall (mark_verifier_aborted k reason) id at db db' b h = (_, abort k reason, h)
  run-IsCall (mark_executing k) id at db db' b h = (_, executing k, h)
  run-IsCall (mark_verifying k) id at db db' b h = (_, verifying k, h)
  run-IsCall (mark_completed r k) id at db db' b h = (_, completed r k, ground arith)
  run-IsCall (mark_rejected k) id at db db' b h = (_, rejected k, h)
  run-IsCall (complete_without_replenishment r) id at db db' b h =
      (_, completed_without_action r, ground arith)
  run-IsCall (mark_failed e) id at db db' b h = (_, failed e, h)
  run-IsCall (mark_expired (aware t)) id at db db' b h = (_, expired t, h)
  run-IsCall (mark_expired (naive t)) id at db db' b h = absurd (cc)
