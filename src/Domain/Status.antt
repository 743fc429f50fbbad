-- ===== src/Domain/Status.antt =====
-- `OperationStatus` and `TERMINAL_STATUSES` of domain/recovery.py.
use opercerta.Common.{Bool, true, false}

pub data OperationStatus : Type 0 where
  received gathering_evidence planning validating reporting : OperationStatus
  awaiting_approval needs_reapproval resuming executing verifying : OperationStatus
  completed rejected aborted expired failed : OperationStatus

unfoldable pub OperationStatus-discrete : Discrete OperationStatus
OperationStatus-discrete = hlevel

-- membership in `TERMINAL_STATUSES`
abbrev pub is_terminal : OperationStatus → Bool
is_terminal OperationStatus.completed = true
is_terminal OperationStatus.rejected = true
is_terminal OperationStatus.aborted = true
is_terminal OperationStatus.expired = true
is_terminal OperationStatus.failed = true
is_terminal _ = false
