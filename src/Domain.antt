-- ===== src/Domain.antt =====
-- The domain layer (src/opercerta/domain).
pub mod Status
pub mod Errors
pub mod Recovery
pub mod Values
pub mod Contracts
pub mod Scenarios
pub mod Replenishment
pub mod Maintenance
pub mod TaskRecovery
pub mod Facts
pub mod Signals
