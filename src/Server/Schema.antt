-- ===== src/Server/Schema.antt =====
-- crates/git-lfs-delta-server/migrations: the tables, as lists of rows.
-- A UUID and a timestamp (in seconds) are numbers, a text is a list of bytes. The columns of a
-- composite key that the tables share stand together, in `ObjectKey` and `ChunkKey`.
-- A JSONB manifest is what `serde_json::from_value` reads from it: `none` if it is malformed.
use git_cdc.Common.{ℕ, Bool, ◌≡◌, ◌↔◌, true, ◌&&◌, List, Option, Eq, nat_eq, arith}
use git_cdc.Core.Digest.{
  ChunkId, ObjectOid, chunk_id_eq, chunk_id_eq_iff, object_oid_eq, object_oid_eq_iff,
}
use git_cdc.Core.Manifest.{ObjectManifest}

pub record ObjectKey : Type 0 where
  pub repository_id : ℕ
  pub oid : ObjectOid

pub record ChunkKey : Type 0 where
  pub repository_id : ℕ
  pub chunk_id : ChunkId

unfoldable pub object_key_eq : ObjectKey → ObjectKey → Bool
object_key_eq a b = nat_eq a.repository_id b.repository_id && object_oid_eq a.oid b.oid

pub object_key_eq_iff : (a b : ObjectKey) → (object_key_eq a b ≡ true) ↔ (a ≡ b)
unfolding object_key_eq
object_key_eq_iff a b = ground (arith, object_oid_eq_iff a.oid b.oid)

unfoldable pub chunk_key_eq : ChunkKey → ChunkKey → Bool
chunk_key_eq a b = nat_eq a.repository_id b.repository_id && chunk_id_eq a.chunk_id b.chunk_id

pub chunk_key_eq_iff : (a b : ChunkKey) → (chunk_key_eq a b ≡ true) ↔ (a ≡ b)
unfolding chunk_key_eq
chunk_key_eq_iff a b = ground (arith, chunk_id_eq_iff a.chunk_id b.chunk_id)

instance abbrev pub object_key_Eq : Eq ObjectKey
object_key_Eq = record { same = object_key_eq; same_iff = object_key_eq_iff }

instance abbrev pub chunk_key_Eq : Eq ChunkKey
chunk_key_Eq = record { same = chunk_key_eq; same_iff = chunk_key_eq_iff }

abbrev pub Json : Type 0
Json = Option ObjectManifest

pub record Repository : Type 0 where
  pub id : ℕ
  pub owner : List ℕ
  pub name : List ℕ

pub record Object : Type 0 where
  pub key : ObjectKey
  pub size : ℕ
  pub manifest : Json

pub record ChunkRow : Type 0 where
  pub key : ChunkKey
  pub size : ℕ
  pub reference_count : ℕ

-- `object_chunks`; the chunk's key has the repository of the object's.
pub record ObjectChunk : Type 0 where
  pub object : ObjectKey
  pub ordinal : ℕ
  pub chunk : ChunkKey
  pub byte_offset : ℕ
  pub byte_length : ℕ

pub data SessionState : Type 0 where
  open_state finalized expired : SessionState

pub record UploadSession : Type 0 where
  pub id : ℕ
  pub object : ObjectKey
  pub object_size : ℕ
  pub manifest : Json
  pub state : SessionState
  pub expires_at : ℕ

pub record SessionChunk : Type 0 where
  pub session_id : ℕ
  pub chunk : ChunkKey

pub record LfsLock : Type 0 where
  pub id : ℕ
  pub repository_id : ℕ
  pub path : List ℕ
  pub owner_subject : List ℕ
  pub created_at : ℕ

pub record Epoch : Type 0 where
  pub id : ℕ
  pub repository_id : ℕ
  pub ref_fingerprint : List ℕ
  pub complete : Bool
  pub completed_at : ℕ

pub record ReachableObject : Type 0 where
  pub epoch_id : ℕ
  pub object_oid : ObjectOid

pub record Tombstone : Type 0 where
  pub object : ObjectKey
  pub delete_after : ℕ

pub record QueuedChunk : Type 0 where
  pub chunk : ChunkKey
  pub queued_at : ℕ

pub record RepositoryGrant : Type 0 where
  pub repository_id : ℕ
  pub subject : List ℕ
  pub can_read : Bool
  pub can_write : Bool
  pub can_admin : Bool

pub record Db : Type 0 where
  pub repositories : List Repository
  pub repository_grants : List RepositoryGrant
  pub objects : List Object
  pub chunks : List ChunkRow
  pub object_chunks : List ObjectChunk
  pub upload_sessions : List UploadSession
  pub upload_session_chunks : List SessionChunk
  pub lfs_locks : List LfsLock
  pub reachability_epochs : List Epoch
  pub reachable_objects : List ReachableObject
  pub object_tombstones : List Tombstone
  pub chunk_gc_queue : List QueuedChunk
