-- ===== src/Recovery.antt =====
-- workflow/recovery_coordinator.py, with the view of infrastructure/db/operation_state_repository.py
-- that it reads: what a restart does with an operation.
pub mod Resumed
use opercerta.Common.{
  ℕ, Bool, true, false, not, ◌||◌, ◌&&◌, ◌==◌, Option, none, some, if◌then◌else◌,
}
use opercerta.Domain.Status.{OperationStatus, is_terminal}
use opercerta.Domain.Recovery.{
  CheckpointPhase, RecoveryAction, RecoveryFacts, recovery_facts, choose_recovery_action,
}
use opercerta.Domain.Errors.{
  Uuid, Result, ok, err, operation_not_found, recovery_state_conflict, raise_if, ◌>>=◌, ◌>>◌,
}
use opercerta.Domain.Values.{Digest}
use opercerta.Domain.Contracts.{is_none}
use opercerta.Domain.Facts.{OperationSnapshot, ApprovalDecision}
use opercerta.Store.Table.{get, find_row}
use opercerta.Store.Schema.{Operation, Approval, WorkOrder, Db}
use opercerta.Operations.Transition.{known_status, parse_snapshot}
use opercerta.Approvals.{find_approval}

pub record RecoveryView : Type 0 where
  pub operation_id : Uuid
  pub thread_id : Uuid
  pub status : OperationStatus
  pub snapshot : OperationSnapshot
  pub approval_id : Option Uuid
  pub decision : Option ApprovalDecision
  pub work_order_id : Option Uuid
  pub payload_hash : Option Digest

-- what the checkpointer's `StateSnapshot` tells: whether it was created, has interrupts, its own or
-- a task's, and has a next node, and the operation's id in its values, where they are a mapping
pub record Checkpoint : Type 0 where
  pub was_created : Bool
  pub has_interrupts : Bool
  pub task_interrupts : Bool
  pub has_next : Bool
  pub values : Option (Option Uuid)

-- how the graph is invoked, or that it is not
pub data Invocation : Type 0 where
  rebuilt : RecoveryView → Invocation
  resumed : Uuid → ApprovalDecision → Invocation
  continued : Invocation
  not_invoked : Invocation

unfoldable pub checkpoint_phase : Checkpoint → CheckpointPhase
checkpoint_phase c =
    if not c.was_created
    then CheckpointPhase.missing
    else if c.has_interrupts || c.task_interrupts
    then CheckpointPhase.interrupted
    else CheckpointPhase.runnable

abbrev is_interrupted : CheckpointPhase → Bool
is_interrupted CheckpointPhase.interrupted = true
is_interrupted _ = false

abbrev names : Uuid → Option Uuid → Bool
names thread none = false
names thread (some j) = j == thread

abbrev check_values :
    Uuid → RecoveryView → Checkpoint → CheckpointPhase → Option (Option Uuid) → Result (Unit {0})
check_values id view c phase none = err (recovery_state_conflict id "checkpoint_values_not_mapping")
check_values id view c phase (some value) = do
  raise_if (not (names view.thread_id value))
      (recovery_state_conflict id "checkpoint_operation_id_mismatch")
  raise_if (is_terminal view.status && (c.has_next || is_interrupted phase))
      (recovery_state_conflict id "terminal_state_has_pending_checkpoint")

unfoldable pub validate_checkpoint :
    Uuid → RecoveryView → Checkpoint → CheckpointPhase → Result (Unit {0})
validate_checkpoint id view c CheckpointPhase.missing = ok tt
validate_checkpoint id view c phase = check_values id view c phase c.values

-- the two outer joins, as far as the view has them: a decision that is no `ApprovalDecision` raises
abbrev decided : Uuid → Option (Uuid × Approval) → Result (Option (Uuid × ApprovalDecision))
decided id none = ok none
decided id (some (k, a)) = elim a.decision [
  | none ↦ err (recovery_state_conflict id "invalid_approval_decision")
  | some d ↦ ok (some (k, d))
]

-- `is_digest` is the test for 64 hexadecimal digits
abbrev ordered :
    (Digest → Bool) → Uuid → Option (Uuid × WorkOrder) → Result (Option (Uuid × Digest))
ordered is_digest id none = ok none
ordered is_digest id (some (k, w)) =
    if is_digest w.payload_hash
    then ok (some (k, w.payload_hash))
    else err (recovery_state_conflict id "invalid_work_order_payload_hash")

abbrev first_of {ℓ κ} : {A : Type ℓ} {B : Type κ} → Option (A × B) → Option A
first_of none = none
first_of (some (a, b)) = some a

abbrev second_of {ℓ κ} : {A : Type ℓ} {B : Type κ} → Option (A × B) → Option B
second_of none = none
second_of (some (a, b)) = some b

abbrev required_operation : Uuid → Option Operation → Result Operation
required_operation id none = err (operation_not_found id)
required_operation id (some op) = ok op

abbrev pub find_order : Uuid → Db → Option (Uuid × WorkOrder)
find_order id db = find_row (λ (w : WorkOrder). w.operation_id == id) db.work_orders

module _ (is_digest : Digest → Bool) where
  unfoldable pub load_recovery_view : Uuid → Db → Result RecoveryView
  load_recovery_view id db = do
    op ← required_operation id (get id db.operations)
    raise_if (not (op.thread_id == id)) (recovery_state_conflict id "thread_id_mismatch")
    status ← known_status id op.status
    snapshot ← parse_snapshot id op.request_payload
    approval ← decided id (find_approval id op.approval_cycle db.approvals)
    order ← ordered is_digest id (find_order id db)
    ok (record {
      operation_id = id;
      thread_id = op.thread_id;
      status = status;
      snapshot = snapshot;
      approval_id = first_of approval;
      decision = second_of approval;
      work_order_id = first_of order;
      payload_hash = second_of order;
    })

  abbrev pub resume_with : Uuid → Option Uuid → Option ApprovalDecision → Result Invocation
  resume_with id (some k) (some d) = ok (resumed k d)
  resume_with id _ _ = err (recovery_state_conflict id "approval_locator_missing")

  abbrev pub invoke : Uuid → RecoveryView → RecoveryAction → Result Invocation
  invoke id view RecoveryAction.rebuild_from_business_facts = ok (rebuilt view)
  invoke id view RecoveryAction.keep_waiting = ok not_invoked
  invoke id view RecoveryAction.no_op = ok not_invoked
  invoke id view RecoveryAction.resume_decision = resume_with id view.approval_id view.decision
  invoke id view _ = ok continued

  -- what `recover` returns, and how it has invoked the graph
  unfoldable pub recover : Uuid → Checkpoint → Db → Result (RecoveryAction × Invocation)
  recover id c db = do
    view ← load_recovery_view id db
    validate_checkpoint id view c (checkpoint_phase c)
    facts ←
        recovery_facts view.status (checkpoint_phase c) (not (is_none view.approval_id))
          (not (is_none view.work_order_id))
    invocation ← invoke id view (choose_recovery_action facts)
    ok (choose_recovery_action facts, invocation)
