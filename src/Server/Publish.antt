-- ===== src/Server/Publish.antt =====
-- `publish_manifest` (crates/git-lfs-delta-server/src/lib.rs): one transaction that makes an
-- uploaded object visible, with its chunks counted.
pub mod Counted
pub mod Links
pub mod Visible
pub mod Once
mod Tests
use git_cdc.Common.{
  ℕ, suc, ◌+◌, ◌^◌, Bool, true, false, not, ◌&&◌, List, [], ◌∷◌, Option, none, some, any, ◌==◌,
  nat_eq, ltb, if◌then◌else◌, Result, ok, err,
}
use git_cdc.Core.Manifest.{ObjectManifest, ChunkDescriptor, validate}
use git_cdc.Server.Error.{integrity, api_error}
use git_cdc.Server.Schema.{
  Db, ObjectKey, ChunkKey, ObjectChunk, UploadSession, finalized, object_key_Eq, chunk_key_Eq,
}
use git_cdc.Server.Tables.{
  repository_exists, find_session, update_sessions, is_open, is_finalized, find_chunk, has_chunk,
  find_object, add_reference,
}
use git_cdc.Server.Tx.{
  Tx, pure, fail, ◌>>=◌, ◌>>◌, select, modify, require, or_fail, sql, api, unique_violation,
  foreign_key_violation, check_violation,
}
use git_cdc.Server.Upload.{is_finalizable, insert_chunk}

abbrev i64_limit : ℕ
i64_limit = 2 ^ 63

abbrev i32_limit : ℕ
i32_limit = 2 ^ 31

abbrev pub chunk_key : ℕ → ChunkDescriptor → ChunkKey
chunk_key repository_id d = record { repository_id = repository_id; chunk_id = d.id }

-- `INSERT INTO chunks ... ON CONFLICT (repository_id, chunk_id) DO NOTHING`
unfoldable pub ensure_chunk : ChunkKey → ℕ → Tx (Unit {0})
ensure_chunk key size db = elim (find_chunk key db.chunks) [
  | some c ↦ pure tt db
  | none ↦ insert_chunk key size db
]

unfoldable pub ensure_chunks : ℕ → List ChunkDescriptor → Tx (Unit {0})
ensure_chunks repository_id [] = pure tt
ensure_chunks repository_id (d ∷ ds) =
    ensure_chunk (chunk_key repository_id d) d.length >> ensure_chunks repository_id ds

-- `INSERT INTO objects ... ON CONFLICT (repository_id, oid) DO NOTHING`: was a row inserted?
unfoldable pub insert_object : ObjectKey → ObjectManifest → Tx Bool
insert_object key manifest db = elim (find_object key db.objects) [
  | some o ↦ pure false db
  | none ↦ inserted db
]
  where
    inserted : Tx Bool
    inserted = do
      require (repository_exists key.repository_id db) (sql foreign_key_violation)
      modify (λ d. record d {
        objects =
            record { key = key; size = manifest.object_size; manifest = some manifest } ∷ d.objects;
      })
      pure true

-- `INSERT INTO object_chunks`, with the constraints of the table.
unfoldable pub insert_object_chunk : ObjectChunk → Tx (Unit {0})
insert_object_chunk l db =
    (do
      require (ltb 0 l.byte_length) (sql check_violation)
      require
          (not (
            any (λ (x : ObjectChunk). x.object == l.object && nat_eq x.ordinal l.ordinal)
              db.object_chunks))
          (sql unique_violation)
      require (elim (find_object l.object db.objects) [ none ↦ false | some _ ↦ true ])
          (sql foreign_key_violation)
      require (has_chunk l.chunk db.chunks) (sql foreign_key_violation)
      modify (λ d. record d { object_chunks = l ∷ d.object_chunks }))
      db

-- One round of the loop: the row that links the chunk to the object, and the chunk's count.
unfoldable pub link_chunk : ObjectKey → ℕ → ChunkDescriptor → Tx (Unit {0})
link_chunk object ordinal d = do
  require (ltb ordinal i32_limit) (api integrity)
  require (ltb d.offset i64_limit) (api integrity)
  require (ltb d.length i32_limit) (api integrity)
  insert_object_chunk (record {
    object = object;
    ordinal = ordinal;
    chunk = chunk_key object.repository_id d;
    byte_offset = d.offset;
    byte_length = d.length;
  })
  modify (λ db. record db { chunks = add_reference (chunk_key object.repository_id d) db.chunks })

unfoldable pub link_chunks : ObjectKey → ℕ → List ChunkDescriptor → Tx (Unit {0})
link_chunks object ordinal [] = pure tt
link_chunks object ordinal (d ∷ ds) =
    link_chunk object ordinal d >> link_chunks object (suc ordinal) ds

-- `UPDATE upload_sessions SET state = 'finalized' WHERE id = $1`
unfoldable pub finalize_session : ℕ → Db → Db
finalize_session upload_id db = record db {
  upload_sessions =
      update_sessions (λ s. nat_eq s.id upload_id) (λ s. record s { state = finalized })
        db.upload_sessions;
}

-- The writes of a session that is still open.
unfoldable pub publish_open : ObjectKey → ℕ → ObjectManifest → Tx Bool
publish_open object upload_id manifest = do
  ensure_chunks object.repository_id manifest.chunks
  require (ltb manifest.object_size i64_limit) (api integrity)
  inserted ← insert_object object manifest
  if inserted then link_chunks object 0 manifest.chunks else pure tt
  modify (finalize_session upload_id)
  pure inserted

-- The transaction: `true` if the object was not there before.
unfoldable pub publish : ℕ → ℕ → ℕ → ObjectManifest → Tx Bool
publish now repository_id upload_id manifest = do
  row ← select (λ db. find_session (is_finalizable now object upload_id) db.upload_sessions)
  session ← or_fail row (api (api_error 404 "upload session not found"))
  if is_finalized session
      then pure false
      else if not (is_open session)
      then fail (api (api_error 404 "open upload session not found"))
      else publish_open object upload_id manifest
  where
    object : ObjectKey
    object = record { repository_id = repository_id; oid = manifest.object_oid }

-- `publish_manifest`: nothing is written unless the manifest is valid.
unfoldable pub publish_manifest : ℕ → ℕ → ℕ → ObjectManifest → Tx Bool
publish_manifest now repository_id upload_id manifest db = elim (validate manifest) [
  | err e ↦ err (api integrity)
  | ok _ ↦ publish now repository_id upload_id manifest db
]
