-- ===== src/Server/Handlers.antt =====
-- The HTTP handlers of objects (crates/git-lfs-delta-server/src/lib.rs).
pub mod Types
pub mod Assembled
pub mod Upload
pub mod Download
pub mod Basic
pub mod Batch
mod Tests
