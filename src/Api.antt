-- ===== src/Api.antt =====
-- server/internal/api: the handlers, over the server's state and the world.
pub mod Http
pub mod Ingest
pub mod Config
pub mod Series
pub mod Admin
pub mod Ops
pub mod Router
