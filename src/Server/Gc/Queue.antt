-- ===== src/Server/Gc/Queue.antt =====
-- `drain_chunk_queue` (crates/git-lfs-delta-server/src/gc.rs): the durable queue of chunks whose
-- bytes may go. The provider's deletion stands inside the round's transaction, so the round is two
-- groups of statements around it; a fault in either rolls the tables back, not the provider.
pub mod Safety
pub mod Blocked
mod Tests
use git_cdc.Common.{
  ℕ, Bool, true, false, not, ◌&&◌, List, [], ◌∷◌, Option, none, some, any, keep, ◌==◌, nat_eq, ltb,
  leb, if◌then◌else◌, Result, ok, err,
}
use git_cdc.Storage.{Backing, StorageError, delete_chunk}
use git_cdc.Server.Schema.{
  Db, ChunkKey, ChunkRow, QueuedChunk, SessionChunk, UploadSession, chunk_key_Eq,
}
use git_cdc.Server.Tables.{find_chunk, references, is_open, session_names}
use git_cdc.Server.Tx.{
  Tx, TxError, pure, ◌>>=◌, ◌>>◌, select, modify, require, sql, foreign_key_violation,
}
use git_cdc.Server.World.{World, in_transaction}

pub data GcError : Type 0 where
  database_error : TxError → GcError
  storage_error : StorageError → GcError

-- `ORDER BY queued_at`
insert_queued : QueuedChunk → List QueuedChunk → List QueuedChunk
insert_queued q [] = q ∷ []
insert_queued q (p ∷ ps) =
    if leb q.queued_at p.queued_at then q ∷ p ∷ ps else p ∷ insert_queued q ps

sort_queued : List QueuedChunk → List QueuedChunk
sort_queued [] = []
sort_queued (q ∷ qs) = insert_queued q (sort_queued qs)

pub queued_of : ℕ → Db → List QueuedChunk
queued_of repository_id db =
    sort_queued (keep (λ q. nat_eq q.chunk.repository_id repository_id) db.chunk_gc_queue)

-- Is the chunk named by a session that is open?
pub names_open_session : ChunkKey → List UploadSession → List SessionChunk → Bool
names_open_session k sessions [] = false
names_open_session k sessions (u ∷ us) =
    if u.chunk == k && any (λ s. nat_eq s.id u.session_id && is_open s) sessions
    then true
    else names_open_session k sessions us

pub remove_queued : ChunkKey → List QueuedChunk → List QueuedChunk
remove_queued k [] = []
remove_queued k (q ∷ qs) = if q.chunk == k then remove_queued k qs else q ∷ remove_queued k qs

pub dequeue : ChunkKey → Db → Db
dequeue k db = record db { chunk_gc_queue = remove_queued k db.chunk_gc_queue }

-- What a queued chunk's row and sessions say: there is no row, an object refers to it, an open
-- upload does, or nothing does.
pub data Verdict : Type 0 where
  gone referenced active free : Verdict

pub judge : ChunkKey → Db → Verdict
judge k db = elim (find_chunk k db.chunks) [
  | none ↦ gone
  | some c ↦
      if ltb 0 c.reference_count
      then referenced
      else if names_open_session k db.upload_sessions db.upload_session_chunks
      then active
      else free
]

-- The statements up to the provider's deletion: an entry that is gone or referenced is dequeued.
pub settle : ChunkKey → Verdict → Tx Verdict
settle k gone = modify (dequeue k) >> pure gone
settle k referenced = modify (dequeue k) >> pure referenced
settle k active = pure active
settle k free = pure free

pub examine : ChunkKey → Tx Verdict
examine k = do verdict ← select (judge k); settle k verdict

pub remove_chunk : ChunkKey → List ChunkRow → List ChunkRow
remove_chunk k [] = []
remove_chunk k (c ∷ cs) =
    if c.key == k && nat_eq c.reference_count 0 then remove_chunk k cs else c ∷ remove_chunk k cs

-- The statements after it. `chunks` may not lose a row that `object_chunks` or
-- `upload_session_chunks` names: neither foreign key cascades.
pub forget_chunk : ChunkKey → Tx (Unit {0})
forget_chunk k db =
    (do
      require (nat_eq (references k db.object_chunks) 0) (sql foreign_key_violation)
      require (not (session_names k db.upload_session_chunks)) (sql foreign_key_violation)
      modify (λ d. record d { chunks = remove_chunk k d.chunks })
      modify (dequeue k))
      db

module _ (b : Backing) where
  abbrev pub GcWorld : Type 0
  GcWorld = World b.objects.State

  reclaimed :
      ChunkKey
      → Result (Unit {0}) StorageError × b.objects.State
      → GcWorld
      → Result (Unit {0}) GcError × GcWorld
  reclaimed k (err e, s) w = (err (storage_error e), record w { store = s })
  reclaimed k (ok _, s) w =
      let (r, w') = in_transaction (forget_chunk k) (record w { store = s }) in
      (elim r [ ok x ↦ ok tt | err e ↦ err (database_error e) ], w')

  -- The rest of a round, by what the first statements found.
  judged : ChunkKey → Result Verdict TxError → GcWorld → Result (Unit {0}) GcError × GcWorld
  judged k (err e) w = (err (database_error e), w)
  judged k (ok gone) w = (ok tt, w)
  judged k (ok referenced) w = (ok tt, w)
  judged k (ok active) w = (ok tt, w)
  judged k (ok free) w = reclaimed k (delete_chunk b k.repository_id k.chunk_id w.store) w

  -- One round of `drain_chunk_queue`.
  pub drain_one : ChunkKey → GcWorld → Result (Unit {0}) GcError × GcWorld
  drain_one k w = let (r, w') = in_transaction (examine k) w in judged k r w'

  pub drain_all : List QueuedChunk → GcWorld → Result (Unit {0}) GcError × GcWorld
  drain_all [] w = (ok tt, w)
  drain_all (q ∷ qs) w =
      let (r, w') = drain_one q.chunk w in elim r [ ok x ↦ drain_all qs w' | err e ↦ (err e, w') ]

  -- `drain_chunk_queue`
  pub drain_chunk_queue : ℕ → GcWorld → Result (Unit {0}) GcError × GcWorld
  drain_chunk_queue repository_id w =
      let (r, w') = in_transaction (select (queued_of repository_id)) w in
      elim r [ ok queued ↦ drain_all queued w' | err e ↦ (err (database_error e), w') ]
