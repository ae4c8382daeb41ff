-- ===== src/Server/Gc/Queue/Blocked.antt =====
-- A chunk that a closed upload session still names: its bytes go, its row cannot.
use git_cdc.Common.{ℕ, true, false, ◌≡◌, refl, ap, List, [], ◌∷◌, some, ok, err, arith}
use git_cdc.Storage.{Backing, delete_chunk}
use git_cdc.Server.Schema.{ChunkKey, ChunkRow, Db, QueuedChunk}
use git_cdc.Server.Tables.{find_chunk, session_names}
use git_cdc.Server.Tx.{sql, foreign_key_violation, select, >>=-eq_of_ok}
use git_cdc.Server.World.Atomic.{in_transaction-ok, in_transaction-err}
use git_cdc.Server.Gc.Queue.{
  database_error, free, judge, settle, examine, forget_chunk, names_open_session, GcWorld,
  reclaimed, judged, drain_one, drain_all, queued_of, drain_chunk_queue,
}

-- The chunk has an unreferenced row, no open session names it, and some other session does.
pub record Stranded (k : ChunkKey) (db : Db) : Type 0 where
  pub row : ChunkRow
  pub is_there : find_chunk k db.chunks ≡ some row
  pub unreferenced : row.reference_count ≡ 0
  pub not_open : names_open_session k db.upload_sessions db.upload_session_chunks ≡ false
  pub named : session_names k db.upload_session_chunks ≡ true

Stranded-judge : (k : ChunkKey) (db : Db) → Stranded k db → judge k db ≡ free
unfolding judge
Stranded-judge k db h = rw (h.is_there, judge, h.unreferenced, h.not_open)

Stranded-examine : (k : ChunkKey) (db : Db) → Stranded k db → examine k db ≡ ok (free, db)
unfolding examine settle
Stranded-examine k db h =
    >>=-eq_of_ok (select (judge k)) (settle k) db free db
      (ap (λ v. ok (v, db)) (Stranded-judge k db h))

Stranded-forget_chunk :
    (k : ChunkKey) (db : Db) → Stranded k db → forget_chunk k db ≡ err (sql foreign_key_violation)
unfolding forget_chunk
Stranded-forget_chunk k db h = ground (arith, h.named)

module _ (b : Backing) where
  drain_one-Stranded :
      (k : ChunkKey) (w : GcWorld b) (s : b.objects.State)
      → w.faults ≡ []
      → Stranded k w.db
      → delete_chunk b k.repository_id k.chunk_id w.store ≡ (ok tt, s)
      → drain_one b k w ≡ (err (database_error (sql foreign_key_violation)), record w { store = s })
  unfolding drain_one judged reclaimed
  drain_one-Stranded k w s f h d = rw (
    in_transaction-ok (examine k) w free w.db f (Stranded-examine k w.db h),
    d,
    in_transaction-err (forget_chunk k) (record w { store = s }) (sql foreign_key_violation) f
        (Stranded-forget_chunk k w.db h),
  )

  -- Suppose the oldest entry of a repository's queue is a chunk with an unreferenced row that no
  -- open session names, but that a session which is not open does. If the provider deletes its
  -- bytes and no connection fails, draining the queue deletes the bytes and then fails with the
  -- violation of a foreign key; the tables are as they were, so the row without bytes and the
  -- entry stay, and no entry behind it is reached.
  pub drain_chunk_queue-Stranded :
      (repository_id : ℕ) (w : GcWorld b) (q : QueuedChunk) (qs : List QueuedChunk)
      (s : b.objects.State)
      → w.faults ≡ []
      → queued_of repository_id w.db ≡ q ∷ qs
      → Stranded q.chunk w.db
      → delete_chunk b q.chunk.repository_id q.chunk.chunk_id w.store ≡ (ok tt, s)
      → drain_chunk_queue b repository_id w
        ≡ (err (database_error (sql foreign_key_violation)), record w { store = s })
  unfolding drain_chunk_queue drain_all
  drain_chunk_queue-Stranded repository_id w q qs s f e h d =
      let picked = in_transaction-ok (select (queued_of repository_id)) w _ w.db f refl in
      let failed = drain_one-Stranded q.chunk w s f h d in
      rw (picked, drain_chunk_queue, e, drain_all, picked, failed, picked, failed)
