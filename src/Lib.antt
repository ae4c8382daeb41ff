-- ===== src/Lib.antt =====
-- A verification library for git-lfs-delta: content-defined chunking for Git LFS, with a client, a
-- server over PostgreSQL and an object store.
--
-- The parts, and how they interact. A client cuts a file into chunks (crates/git-lfs-delta-core),
-- describes it by a manifest, and sends the manifest and the chunks that the server lacks. The server
-- (crates/git-lfs-delta-server) keeps chunks in an object store by their BLAKE3
-- (crates/git-lfs-delta-storage), and in its tables the upload sessions, the objects, and for each
-- chunk how many links of objects name it. Publishing a session's manifest makes the object visible;
-- garbage collection deletes objects whose tombstone is due, then the chunks that no object names.
--
-- The files.
-- - Common: library names passed on; the tests ltb, leb and nat_eq, Result for fallible code, an
--   interface of decidable equality, lists over the native numbers.
-- - Core.Digest: crates/git-lfs-delta-core/src/digest.rs. A digest is a list of bytes, hex a parameter.
-- - Core.Profile, Core.Manifest: profile.rs and manifest.rs. ObjectManifest::validate is validate, its
--   loop check_chunks, a round of it check_chunk.
-- - Core.Stream: stream.rs. ChunkStream::new, next and finish; fastcdc and the hashes are parameters.
-- - Storage: crates/git-lfs-delta-storage/src/lib.rs. put_verified, get_verified, exists, delete (here
--   delete_chunk) and healthcheck, over the parameter ObjectStore; Storage.Memory is an instance.
-- - Protocol: select_transfer of crates/git-lfs-delta-protocol/src/lfs.rs, and in Protocol.Messages the
--   messages of lfs.rs and cdc.rs.
-- - Server.Schema, Server.Tables: crates/git-lfs-delta-server/migrations, the tables as lists of rows
--   and what the statements ask of them. Server.Tables.Counts is the invariant of the reference counts.
-- - Server.Tx, Server.World, Server.Error: a transaction as a function of the tables that fails or
--   returns new ones; the tables, the store and the connection faults to come; ApiError.
-- - Server.Upload, Server.Publish: the transactions of an upload in
--   crates/git-lfs-delta-server/src/lib.rs: begin_cdc and ensure_upload_session (open_session),
--   register_and_store_chunk (register_chunk), load_open_upload, load_finalizable_upload and
--   publish_manifest.
-- - Server.Gc: crates/git-lfs-delta-server/src/gc.rs. Collect is one round of collect_due, Due its
--   loop, Queue is drain_chunk_queue, Snapshots are submit_snapshot, dry_run and stage,
--   Reclaim is reclaim_expired_uploads. A drained chunk's deletion by the provider stands between two
--   groups of statements, and is not undone when the second fails.
-- - Server.Lookup: parse_oid, repository_id and load_manifest of the same file.
-- - Server.Locks: the lock handlers of crates/git-lfs-delta-server/src/lib.rs (create_lock, list_locks,
--   verify_locks, unlock), which take the answers of authenticate and repository_id as arguments.
-- - Server.Service: AppState as far as handlers change it, and a handler as a function of it that also
--   says what it leaves when it fails. Service.Laws has handlers that leave the tables alone (Reads),
--   Service.Ensures what a handler ensures of its result.
-- - Server.Auth: authenticate with its three ways, authenticate_forgejo (Forgejo, with its cache in
--   Cache) and authenticate_oidc (Oidc). The HTTP client and jsonwebtoken are parameters.
-- - Server.Handlers: begin_cdc, upload_cdc_chunk and finalize_cdc (Upload), the downloads (Download),
--   upload_basic (Basic) and batch (Batch), with a deployment's crates and settings as the parameter
--   Deployment. They call authenticate, the transactions and the chunk store as the source does.
-- - Server.Migrations: schema_status and schema_check.
-- - Client.Transfer: crates/git-lfs-delta-client/src/transfer.rs. run_transfer_protocol is a loop over
--   lines, run, with step for a message; the streams and the backend are parameters.
-- - Client.Backend: crates/git-lfs-delta-client/src/backend.rs. Types has the parameter Platform, which
--   stands for reqwest, url, uuid, serde_json and the file system; Retry the loops that send a request;
--   Fetch is read_or_fetch_chunk; Window puts a download together from chunks in any order, for
--   Downloads; Producer reads an upload's source for its workers, for Uploads. Threads are arguments:
--   the order in which results arrive, or what the producer sees of its workers.
-- - Client.Cache: prune_cache of crates/git-lfs-delta-client/src/main.rs.
--
-- Machine integers are native numbers; where the source checks or wraps, the model does. Times are
-- seconds, and the time of a statement is an argument; one time stands for the clock readings of a
-- whole collection pass, and of a whole look through the authorization cache. What Forgejo answers
-- is a fixed function of the request. The statements of a transaction run alone: the rows that they
-- lock are not modelled. A connection fault is one of the world's faults, and stands for any
-- failure of a whole transaction. Fuel: collect_loop takes it, and collect_due gives it a round
-- more than there are tombstones; flush takes it, and collect gives it a round more than there are
-- chunks that wait.
--
-- Not modelled: the router, readiness and metrics of the server, its process and its OIDC discovery
-- (new_oidc); reconcile.rs, which runs git; the settings and the construction of the client's HTTP
-- backend, and how its threads are scheduled; the command lines but for prune_cache, xtask, and the
-- crates that the code calls (fastcdc, hex, object_store, sqlx, serde, reqwest, jsonwebtoken, url),
-- which are parameters where the code that is modelled uses them. Of an error's message, the part that
-- a crate makes is left out where the model has no text for it.
pub mod Common
pub mod Core
pub mod Storage
pub mod Protocol
pub mod Server
pub mod Client
