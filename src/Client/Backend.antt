-- ===== src/Client/Backend.antt =====
-- The HTTP backend of the client (crates/git-lfs-delta-client/src/backend.rs).
pub mod Types
pub mod Retry
pub mod Window
pub mod Fetch
pub mod Downloads
pub mod Producer
pub mod Uploads
mod Tests
