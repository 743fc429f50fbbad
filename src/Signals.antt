-- ===== src/Signals.antt =====
-- src/opercerta/infrastructure/db/signal_repository.py: the signals that were detected, and the
-- successors of those that want attention.
pub mod Repository
pub mod Keys
pub mod Retry
pub mod Scans
pub mod Detector
pub mod Reconciled
pub mod Kept
pub mod Links
pub mod Lineage
