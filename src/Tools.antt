-- ===== src/Tools.antt =====
-- src/tools: what the agent can call.
pub mod Cron
