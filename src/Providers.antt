-- ===== src/Providers.antt =====
-- src/providers: the language model backends and the router over them.
pub mod Response
pub mod Model
pub mod Router
mod Tests
