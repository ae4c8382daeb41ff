-- ===== src/Server/Gc.antt =====
-- crates/git-lfs-delta-server/src/gc.rs: deleting unreachable objects and unreferenced chunks.
pub mod Collect
pub mod Queue
pub mod Due
pub mod Snapshots
pub mod Reclaim
