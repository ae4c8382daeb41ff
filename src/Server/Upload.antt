-- ===== src/Server/Upload.antt =====
-- The transactions of an upload (crates/git-lfs-delta-server/src/lib.rs): opening a session,
-- registering a chunk, and loading a session. `now` is the transaction's time in seconds, and
-- `fresh` the session id that `Uuid::new_v4` gives.
pub mod Reading
pub mod Sessions
pub mod Counted
mod Tests
use git_cdc.Common.{
  ℕ, ◌+◌, ◌*◌, ◌^◌, Bool, true, false, not, ◌&&◌, ◌||◌, List, [], ◌∷◌, Option, none, some, any,
  ◌==◌, nat_eq, ltb, leb, if◌then◌else◌,
}
use git_cdc.Core.Manifest.{ObjectManifest, ChunkDescriptor}
use git_cdc.Core.Manifest.Equality.{manifest_eq}
use git_cdc.Server.Error.{ApiError, api_error, integrity}
use git_cdc.Server.Schema.{
  Db, Json, ObjectKey, ChunkKey, ChunkRow, UploadSession, SessionChunk, open_state, expired,
  finalized, object_key_Eq, chunk_key_Eq,
}
use git_cdc.Server.Tables.{
  repository_exists, find_session, update_sessions, is_open, is_finalized, find_chunk, has_chunk,
}
use git_cdc.Server.Tx.{
  Tx, pure, fail, ◌>>=◌, ◌>>◌, select, modify, require, or_fail, sql, api, unique_violation,
  foreign_key_violation, check_violation,
}

-- `interval '24 hours'`
abbrev pub session_lifetime : ℕ
session_lifetime = 24 * 60 * 60

abbrev i64_limit : ℕ
i64_limit = 2 ^ 63

-- `UPDATE upload_sessions SET state = 'expired' WHERE ... state = 'open' AND expires_at <= now()`
unfoldable pub expire_stale : ℕ → ObjectKey → Db → Db
expire_stale now object db = record db {
  upload_sessions =
      update_sessions (λ s. s.object == object && (is_open s && leb s.expires_at now))
        (λ s. record s { state = expired }) db.upload_sessions;
}

-- `INSERT INTO upload_sessions ... ON CONFLICT (repository_id, object_oid) WHERE state = 'open'
-- DO UPDATE SET expires_at = now() + interval '24 hours' RETURNING ...`
unfoldable pub insert_session : UploadSession → Tx UploadSession
insert_session new db = elim (find_session open_here db.upload_sessions) [
  | some s ↦
      ok_row (extended s)
        (record db { upload_sessions = update_sessions open_here extended db.upload_sessions })
  | none ↦ inserted db
]
  where
    open_here : UploadSession → Bool
    open_here s = s.object == new.object && is_open s

    extended : UploadSession → UploadSession
    extended s = record s { expires_at = new.expires_at }

    ok_row : UploadSession → Tx UploadSession
    ok_row s = pure s

    inserted : Tx UploadSession
    inserted = do
      require (not (any (λ (s : UploadSession). nat_eq s.id new.id) db.upload_sessions))
          (sql unique_violation)
      require (repository_exists new.object.repository_id db) (sql foreign_key_violation)
      modify (λ d. record d { upload_sessions = new ∷ d.upload_sessions })
      pure new

-- The transaction of `begin_cdc` and of `ensure_upload_session`, which differ in the error for a
-- size that is no `i64`.
unfoldable pub open_session : ApiError → ℕ → ℕ → ObjectKey → ObjectManifest → Tx UploadSession
open_session too_large now fresh object manifest = do
  modify (expire_stale now object)
  require (ltb manifest.object_size i64_limit) (api too_large)
  row ← insert_session (record {
    id = fresh;
    object = object;
    object_size = manifest.object_size;
    manifest = some manifest;
    state = open_state;
    expires_at = now + session_lifetime;
  })
  stored ← or_fail row.manifest (api integrity)
  require (manifest_eq stored manifest)
      (api (api_error 409 "an open upload for this OID uses a different manifest"))
  pure row

-- `load_open_upload`
unfoldable pub load_open_upload : ℕ → ObjectKey → ℕ → Tx ObjectManifest
load_open_upload now object upload_id = do
  row ← select (λ db.
      find_session
        (λ s. nat_eq s.id upload_id && (s.object == object && (is_open s && ltb now s.expires_at)))
        db.upload_sessions)
  session ← or_fail row (api (api_error 404 "open upload session not found"))
  or_fail session.manifest (api integrity)

-- The sessions that `load_finalizable_upload` and `publish_manifest` select.
unfoldable pub is_finalizable : ℕ → ObjectKey → ℕ → UploadSession → Bool
is_finalizable now object upload_id s =
    nat_eq s.id upload_id
    && (s.object == object && ((is_open s && ltb now s.expires_at) || is_finalized s))

-- `load_finalizable_upload`: the manifest, and whether the session is finalized already.
unfoldable pub load_finalizable_upload : ℕ → ObjectKey → ℕ → Tx (ObjectManifest × Bool)
load_finalizable_upload now object upload_id = do
  row ← select (λ db. find_session (is_finalizable now object upload_id) db.upload_sessions)
  session ← or_fail row (api (api_error 404 "upload session not found"))
  manifest ← or_fail session.manifest (api integrity)
  pure (manifest, is_finalized session)

-- `INSERT INTO chunks (repository_id, chunk_id, size)`, with the constraints of the table.
unfoldable pub insert_chunk : ChunkKey → ℕ → Tx (Unit {0})
insert_chunk key size db =
    (do
      require (ltb 0 size) (sql check_violation)
      require (repository_exists key.repository_id db) (sql foreign_key_violation)
      modify (λ d. record d {
        chunks = record { key = key; size = size; reference_count = 0 } ∷ d.chunks;
      }))
      db

-- `... ON CONFLICT (repository_id, chunk_id) DO UPDATE SET size = chunks.size
-- WHERE chunks.size = EXCLUDED.size RETURNING size`
unfoldable pub upsert_chunk : ChunkKey → ℕ → Tx (Option ℕ)
upsert_chunk key size db = elim (find_chunk key db.chunks) [
  | some c ↦ pure (if nat_eq c.size size then some c.size else none) db
  | none ↦ (insert_chunk key size >> pure (some size)) db
]

-- `INSERT INTO upload_session_chunks ... ON CONFLICT DO NOTHING`
unfoldable pub insert_session_chunk : ℕ → ChunkKey → Tx (Unit {0})
insert_session_chunk session_id chunk db =
    if any same db.upload_session_chunks then pure tt db else inserted db
  where
    same : SessionChunk → Bool
    same u = nat_eq u.session_id session_id && u.chunk == chunk

    owner : UploadSession → Bool
    owner s = nat_eq s.id session_id && nat_eq s.object.repository_id chunk.repository_id

    inserted : Tx (Unit {0})
    inserted = do
      require (any owner db.upload_sessions) (sql foreign_key_violation)
      require (has_chunk chunk db.chunks) (sql foreign_key_violation)
      modify (λ d. record d {
        upload_session_chunks =
            record { session_id = session_id; chunk = chunk } ∷ d.upload_session_chunks;
      })

-- The transaction of `register_and_store_chunk`.
unfoldable pub register_chunk : ℕ → ℕ → ChunkDescriptor → Tx (Unit {0})
register_chunk repository_id upload_id descriptor = do
  registered ← upsert_chunk key descriptor.length
  size ← or_fail registered (api integrity)
  insert_session_chunk upload_id key
  where
    key : ChunkKey
    key = record { repository_id = repository_id; chunk_id = descriptor.id }
