-- ===== src/Domain/Recovery.antt =====
-- domain/recovery.py: what to do with an operation after a restart.
pub mod Choice
use opercerta.Common.{Bool, true, false, not, ◌&&◌, if◌then◌else◌}
use opercerta.Domain.Status.{OperationStatus, is_terminal}
use opercerta.Domain.Errors.{Result, ok, err, invalid_recovery_facts, raise_if, ◌>>=◌, ◌>>◌}

pub data CheckpointPhase : Type 0 where
  missing interrupted runnable : CheckpointPhase

pub data RecoveryAction : Type 0 where
  rebuild_from_business_facts keep_waiting resume_decision : RecoveryAction
  replay_idempotent_execution verify_existing_work_order : RecoveryAction
  continue_checkpoint no_op : RecoveryAction

pub record RecoveryFacts : Type 0 where
  pub status : OperationStatus
  pub checkpoint : CheckpointPhase
  pub has_approval : Bool
  pub has_work_order : Bool

abbrev is_received : OperationStatus → Bool
is_received OperationStatus.received = true
is_received _ = false

-- `status in {RESUMING, EXECUTING, VERIFYING}`
abbrev pub is_executing_phase : OperationStatus → Bool
is_executing_phase OperationStatus.resuming = true
is_executing_phase OperationStatus.executing = true
is_executing_phase OperationStatus.verifying = true
is_executing_phase _ = false

-- `RecoveryFacts(...)`: the construction with its `__post_init__`
unfoldable pub recovery_facts :
    OperationStatus → CheckpointPhase → Bool → Bool → Result RecoveryFacts
recovery_facts s c approval work_order = do
  raise_if (work_order && not approval) (invalid_recovery_facts "work_order_without_approval")
  raise_if (is_received s && approval) (invalid_recovery_facts "approval_without_approval_state")
  ok (record { status = s; checkpoint = c; has_approval = approval; has_work_order = work_order })

abbrev is_missing : CheckpointPhase → Bool
is_missing CheckpointPhase.missing = true
is_missing _ = false

abbrev is_interrupted : CheckpointPhase → Bool
is_interrupted CheckpointPhase.interrupted = true
is_interrupted _ = false

unfoldable pub choose_recovery_action : RecoveryFacts → RecoveryAction
choose_recovery_action facts =
    if is_terminal facts.status
    then RecoveryAction.no_op
    else if is_missing facts.checkpoint
    then RecoveryAction.rebuild_from_business_facts
    else if is_interrupted facts.checkpoint
    then (if facts.has_approval
        then RecoveryAction.resume_decision
        else RecoveryAction.keep_waiting)
    else if facts.has_work_order
    then RecoveryAction.verify_existing_work_order
    else if is_executing_phase facts.status
    then RecoveryAction.replay_idempotent_execution
    else RecoveryAction.continue_checkpoint
