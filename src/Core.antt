-- ===== src/Core.antt =====
-- src/core: the agent.
pub mod Session
pub mod Agent
pub mod Jobs
pub mod Dispatch
