-- ===== src/Tests.antt =====
-- Concrete inputs, and the theorems at them.
mod Data
mod Run
mod Signals
mod Writes
mod Reached
mod Assessments
mod Detections
mod Agent
mod Scans
mod Expiry
mod Recovery
