-- ===== src/Server.antt =====
-- crates/git-lfs-delta-server: the schema, the request handlers and the garbage collector.
pub mod Schema
pub mod Error
pub mod Tx
pub mod Tables
pub mod Upload
pub mod Publish
pub mod World
pub mod Service
pub mod Samples
pub mod Gc
pub mod Locks
pub mod Lookup
pub mod Auth
pub mod Migrations
pub mod Handlers
