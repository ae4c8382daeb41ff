-- ===== src/Server/Gc/Reclaim.antt =====
-- `reclaim_expired_uploads` (crates/git-lfs-delta-server/src/gc.rs): one transaction over the upload
-- sessions, then the queue. `now - seconds` stands on the other side of its comparisons.
pub mod Kept
mod Tests
use git_cdc.Common.{
  ℕ, suc, ◌+◌, ◌^◌, Bool, true, false, not, ◌&&◌, List, [], ◌∷◌, any, keep, length, ◌==◌, nat_eq,
  ltb, leb, if◌then◌else◌, Result, ok, err,
}
use git_cdc.Storage.{Backing}
use git_cdc.Server.Schema.{
  Db, ChunkKey, ChunkRow, QueuedChunk, SessionChunk, UploadSession, expired, chunk_key_Eq,
}
use git_cdc.Server.Tables.{update_sessions, is_open, is_expired, is_queued}
use git_cdc.Server.Tx.{Tx, TxError, pure, ◌>>=◌, ◌>>◌, select, modify, sql, protocol}
use git_cdc.Server.World.{World, in_transaction}
use git_cdc.Server.Gc.Queue.{
  GcError, database_error, GcWorld, names_open_session, drain_chunk_queue,
}

-- `UPDATE upload_sessions SET state = 'expired' WHERE ... state = 'open' AND expires_at <= now()`
pub expire_sessions : ℕ → ℕ → Db → Db
expire_sessions now repository_id db = record db {
  upload_sessions =
      update_sessions
        (λ s. nat_eq s.object.repository_id repository_id && (is_open s && leb s.expires_at now))
        (λ s. record s { state = expired }) db.upload_sessions;
}

-- A session that has been expired for the grace period.
abbrev pub is_abandoned : ℕ → ℕ → UploadSession → Bool
is_abandoned now seconds s = is_expired s && leb (s.expires_at + seconds) now

-- Is the chunk named by an abandoned session?
pub names_abandoned : ℕ → ℕ → ChunkKey → List UploadSession → List SessionChunk → Bool
names_abandoned now seconds k sessions us =
    any
      (λ (u : SessionChunk).
        u.chunk == k && any (λ s. nat_eq s.id u.session_id && is_abandoned now seconds s) sessions)
      us

-- `INSERT INTO chunk_gc_queue SELECT DISTINCT ... ON CONFLICT DO NOTHING`
pub enqueue_abandoned : ℕ → ℕ → ℕ → Db → List ChunkRow → List QueuedChunk → List QueuedChunk
enqueue_abandoned now seconds repository_id db [] queue = queue
enqueue_abandoned now seconds repository_id db (c ∷ cs) queue =
    if nat_eq c.key.repository_id repository_id
      && (nat_eq c.reference_count 0
          && (names_abandoned now seconds c.key db.upload_sessions db.upload_session_chunks
              && (not (names_open_session c.key db.upload_sessions db.upload_session_chunks)
                  && not (is_queued c.key queue))))
    then enqueue_abandoned now seconds repository_id db cs
        (record { chunk = c.key; queued_at = now } ∷ queue)
    else enqueue_abandoned now seconds repository_id db cs queue

-- The sessions that `DELETE FROM upload_sessions` removes; their chunks' rows go with them.
abbrev is_removed : ℕ → ℕ → ℕ → UploadSession → Bool
is_removed now seconds repository_id s =
    nat_eq s.object.repository_id repository_id && is_abandoned now seconds s

pub remove_sessions : ℕ → ℕ → ℕ → Db → Db
remove_sessions now seconds repository_id db = record db {
  upload_sessions = keep (λ s. not (is_removed now seconds repository_id s)) db.upload_sessions;
  upload_session_chunks =
      keep
        (λ (u : SessionChunk). not (
          any (λ s. nat_eq s.id u.session_id && is_removed now seconds repository_id s)
            db.upload_sessions))
        db.upload_session_chunks;
}

-- The transaction: how many sessions were removed.
pub reclaim_sessions : ℕ → ℕ → ℕ → Tx ℕ
reclaim_sessions now seconds repository_id = do
  modify (expire_sessions now repository_id)
  modify (λ db. record db {
    chunk_gc_queue = enqueue_abandoned now seconds repository_id db db.chunks db.chunk_gc_queue;
  })
  removed ← select (λ db. length (keep (is_removed now seconds repository_id) db.upload_sessions))
  modify (remove_sessions now seconds repository_id)
  pure removed

module _ (b : Backing) where
  -- After the transaction, the queue.
  then_drained : ℕ → Result ℕ TxError × GcWorld b → Result ℕ GcError × GcWorld b
  then_drained repository_id (err e, w) = (err (database_error e), w)
  then_drained repository_id (ok removed, w) =
      let (r, w') = drain_chunk_queue b repository_id w in
      (elim r [ ok _ ↦ ok removed | err e ↦ err e ], w')

  -- `reclaim_expired_uploads`
  pub reclaim_expired_uploads : ℕ → ℕ → ℕ → GcWorld b → Result ℕ GcError × GcWorld b
  reclaim_expired_uploads now repository_id grace w =
      if ltb grace (2 ^ 63)
      then then_drained repository_id (in_transaction (reclaim_sessions now grace repository_id) w)
      else (err (database_error (sql protocol)), w)
