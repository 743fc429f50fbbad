-- ===== src/Operations.antt =====
-- The repository of operations (src/opercerta/infrastructure/db/replenishment_operation_repository.py)
-- with the evidence rows that it writes (evidence_repository.py).
pub mod Checks
pub mod Snapshots
pub mod EvidenceRows
pub mod Transition
pub mod Locators
pub mod Create
pub mod Arguments
pub mod Methods
pub mod Frame
pub mod Signals
pub mod Calls
pub mod Expiry
pub mod States
