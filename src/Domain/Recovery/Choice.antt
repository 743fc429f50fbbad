-- ===== src/Domain/Recovery/Choice.antt =====
-- What a chosen recovery action says of the operation.
use opercerta.Common.{◌≡◌, ◌≢◌, ◌↔◌, Bool, true, false, arith}
use opercerta.Domain.Status.{OperationStatus, is_terminal}
use opercerta.Domain.Errors.{ok}
use opercerta.Domain.Recovery.{
  CheckpointPhase, RecoveryAction, RecoveryFacts, recovery_facts, choose_recovery_action,
  is_executing_phase,
}

-- when each of the actions that run something again is chosen
abbrev pub Chooses : OperationStatus → CheckpointPhase → Bool → Bool → RecoveryFacts → Type 0
Chooses s c approval work_order f =
    ((choose_recovery_action f ≡ RecoveryAction.no_op) ↔ (is_terminal s ≡ true))
    × ((choose_recovery_action f ≡ RecoveryAction.resume_decision)
        ↔ ((is_terminal s ≡ false) × (c ≡ CheckpointPhase.interrupted) × (approval ≡ true)))
    × ((choose_recovery_action f ≡ RecoveryAction.keep_waiting)
        ↔ ((is_terminal s ≡ false) × (c ≡ CheckpointPhase.interrupted) × (approval ≡ false)))
    × ((choose_recovery_action f ≡ RecoveryAction.verify_existing_work_order)
        ↔ ((is_terminal s ≡ false) × (c ≡ CheckpointPhase.runnable) × (work_order ≡ true)))
    × ((choose_recovery_action f ≡ RecoveryAction.verify_existing_work_order)
        → (approval ≡ true) × (s ≢ OperationStatus.received))
    × ((choose_recovery_action f ≡ RecoveryAction.replay_idempotent_execution)
        → (is_executing_phase s ≡ true) × (work_order ≡ false))

module _ (s : OperationStatus) (c : CheckpointPhase) (approval work_order : Bool)
    {f : RecoveryFacts} (built : recovery_facts s c approval work_order ≡ ok f) where
  -- For recovery facts that are valid, nothing is done exactly for a terminal status, a decision
  -- is resumed or waited for exactly at an interrupted checkpoint with or without an approval, a
  -- work order is verified exactly at a runnable checkpoint with one, which is then approved,
  -- and execution is replayed only without a work order.
  pub choose_recovery_action_cases : Chooses s c approval work_order f
  unfolding recovery_facts choose_recovery_action
  choose_recovery_action_cases = ground arith
