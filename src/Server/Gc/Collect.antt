-- ===== src/Server/Gc/Collect.antt =====
-- The transaction of one round of `collect_due` (crates/git-lfs-delta-server/src/gc.rs): a due
-- tombstone's object goes, and the counts of its chunks with it.
pub mod Counted
pub mod Deleted
pub mod Fewer
mod Tests
use git_cdc.Common.{
  ℕ, ◌+◌, Bool, true, false, not, ◌&&◌, List, [], ◌∷◌, Option, none, some, any, keep, ◌==◌, nat_eq,
  leb, if◌then◌else◌,
}
use git_cdc.Server.Schema.{
  Db, ObjectKey, ChunkKey, ChunkRow, ObjectChunk, Tombstone, object_key_Eq, chunk_key_Eq,
}
use git_cdc.Server.Tables.{can_drop_reference, drop_reference, is_queued}
use git_cdc.Server.Tx.{Tx, pure, ◌>>=◌, ◌>>◌, select, modify, require, sql, check_violation}

-- Tombstones of the repository that are due, and the one that became so first:
-- `WHERE repository_id = $1 AND delete_after <= now() ORDER BY delete_after LIMIT 1`.
abbrev is_due : ℕ → ℕ → Tombstone → Bool
is_due now repository_id t = nat_eq t.object.repository_id repository_id && leb t.delete_after now

pub earlier : Tombstone → Option Tombstone → Tombstone
earlier t none = t
earlier t (some u) = if leb t.delete_after u.delete_after then t else u

pub next_due : ℕ → ℕ → List Tombstone → Option Tombstone
next_due now repository_id [] = none
next_due now repository_id (t ∷ ts) =
    let rest = next_due now repository_id ts in
    if is_due now repository_id t then some (earlier t rest) else rest

-- `SELECT chunk_id FROM object_chunks WHERE repository_id = $1 AND object_oid = $2`
pub chunks_of : ObjectKey → List ObjectChunk → List ChunkKey
chunks_of object [] = []
chunks_of object (l ∷ ls) =
    if l.object == object then l.chunk ∷ chunks_of object ls else chunks_of object ls

pub remove_links : ObjectKey → List ObjectChunk → List ObjectChunk
remove_links object [] = []
remove_links object (l ∷ ls) =
    if l.object == object then remove_links object ls else l ∷ remove_links object ls

pub remove_tombstones : ObjectKey → List Tombstone → List Tombstone
remove_tombstones object [] = []
remove_tombstones object (t ∷ ts) =
    if t.object == object then remove_tombstones object ts else t ∷ remove_tombstones object ts

-- `DELETE FROM objects`, which cascades to `object_chunks` and `object_tombstones`.
pub delete_object : ObjectKey → Db → Db
delete_object object db = record db {
  objects = keep (λ o. not (o.key == object)) db.objects;
  object_chunks = remove_links object db.object_chunks;
  object_tombstones = remove_tombstones object db.object_tombstones;
}

-- `INSERT INTO chunk_gc_queue SELECT ... WHERE reference_count = 0 ON CONFLICT DO NOTHING`
pub enqueue_unreferenced : ℕ → ChunkKey → Db → Db
enqueue_unreferenced now k db =
    if any (λ (c : ChunkRow). c.key == k && nat_eq c.reference_count 0) db.chunks
      && not (is_queued k db.chunk_gc_queue)
    then record db { chunk_gc_queue = record { chunk = k; queued_at = now } ∷ db.chunk_gc_queue }
    else db

-- One round of the loop over the deleted object's chunks.
pub drop_chunk : ℕ → ChunkKey → Tx (Unit {0})
drop_chunk now k db =
    (do
      require (can_drop_reference k db.chunks) (sql check_violation)
      modify (λ d. record d { chunks = drop_reference k d.chunks })
      modify (enqueue_unreferenced now k))
      db

pub drop_chunks : ℕ → List ChunkKey → Tx (Unit {0})
drop_chunks now [] = pure tt
drop_chunks now (k ∷ ks) = drop_chunk now k >> drop_chunks now ks

pub collect_object : ℕ → ObjectKey → Tx (Unit {0})
collect_object now object = do
  chunk_ids ← select (λ db. chunks_of object db.object_chunks)
  modify (delete_object object)
  drop_chunks now chunk_ids

-- The transaction of one round of `collect_due`: was there a tombstone to collect?
pub collect_one : ℕ → ℕ → Tx Bool
collect_one now repository_id db = elim (next_due now repository_id db.object_tombstones) [
  | none ↦ pure false db
  | some t ↦ (collect_object now t.object >> pure true) db
]
