-- ===== src/Agent.antt =====
-- The agent's boundary (src/opercerta/agent): what a language model may ask for.
pub mod Contracts
pub mod Policy
pub mod Harness
pub mod Executor
pub mod Loop
