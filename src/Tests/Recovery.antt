-- ===== src/Tests/Recovery.antt =====
-- The theorem on the recovery, at a decision that was made while the graph was interrupted.
use opercerta.Common.{◌≡◌, refl, true, false, none, some, [], ◌∷◌}
use opercerta.Domain.Status.{OperationStatus}
use opercerta.Domain.Recovery.{RecoveryAction, recovery_facts, choose_recovery_action}
use opercerta.Domain.Facts.{ApprovalDecision}
use opercerta.Store.Schema.{Operation, Approval, Db, empty_db}
use opercerta.Store.Table.{get, find_row}
use opercerta.Operations.Create.{new_operation}
use opercerta.Operations.Transition.{known_status, parse_snapshot}
use opercerta.Approvals.{find_approval}
use opercerta.Recovery.{
  Checkpoint, checkpoint_phase, validate_checkpoint, load_recovery_view, resumed, recover,
}
use opercerta.Recovery.Resumed.{IsRecovery, recover-ok}
use opercerta.Tests.Data.{request}

abbrev resuming : Operation
resuming = record (new_operation request 1 1) {
  status = some OperationStatus.resuming;
  approval_cycle = 1;
}

abbrev approval : Approval
approval = record {
  operation_id = 1;
  approver_id = "ann";
  decision = some ApprovalDecision.approved;
  reason = "needed";
  approval_cycle = 1;
  inventory_binding = none;
  subject_evidence_id = none;
  binding_payload = none;
  created_at = 2;
}

abbrev db_decided : Db
db_decided = record empty_db { operations = (1, resuming) ∷ []; approvals = (7, approval) ∷ [] }

abbrev waiting : Checkpoint
waiting = record {
  was_created = true;
  has_interrupts = true;
  task_interrupts = false;
  has_next = true;
  values = some (some 1);
}

recover-ok_example :
    (op : Operation) × (s : OperationStatus) × (get 1 db_decided.operations ≡ some op)
    × (op.status ≡ some s)
    × IsRecovery
        (λ _. true)
        1
        waiting
        db_decided
        op
        s
        RecoveryAction.resume_decision
        (resumed 7 ApprovalDecision.approved)
unfolding recover load_recovery_view get find_row find_approval known_status parse_snapshot
    checkpoint_phase validate_checkpoint recovery_facts choose_recovery_action
recover-ok_example =
    recover-ok (λ _. true) 1 waiting db_decided RecoveryAction.resume_decision
      (resumed 7 ApprovalDecision.approved) refl
