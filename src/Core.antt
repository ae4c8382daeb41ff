-- ===== src/Core.antt =====
-- crates/git-lfs-delta-core: digests, the chunking profile, manifests and the chunk stream.
pub mod Digest
pub mod Profile
pub mod Manifest
pub mod Stream
