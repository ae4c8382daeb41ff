-- ===== src/Client.antt =====
-- crates/git-lfs-delta-client: the custom-transfer agent of the client.
pub mod Transfer
pub mod Cache
pub mod Backend
