-- ===== src/Store.antt =====
-- server/internal/store/store.go: data, the world outside the process, and the operations.
pub mod Data
pub mod World
pub mod Insert
pub mod Settings
pub mod Cursor
pub mod Series
pub mod Migrate
pub mod Reads
