-- ===== src/Asap.antt =====
-- src/asap: the agent protocol.
pub mod Ulid
pub mod Envelope
pub mod Registry
