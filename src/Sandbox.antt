-- ===== src/Sandbox.antt =====
-- src/sandbox: what a shell command may touch.
pub mod Path
pub mod Words
pub mod Scanners
pub mod Allowlist
