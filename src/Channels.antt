-- ===== src/Channels.antt =====
-- src/channels: where messages come from and replies go.
pub mod Chunks
pub mod Discord
