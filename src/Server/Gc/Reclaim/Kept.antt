-- ===== src/Server/Gc/Reclaim/Kept.antt =====
-- Reclaiming uploads never deletes the bytes of a chunk that an object refers to.
use git_cdc.Common.{ℕ, ◌^◌, refl, sym, subst, inl, inr, List, Result, ok, err, ltb, Bool-cases}
use git_cdc.Storage.{Backing}
use git_cdc.Server.Schema.{Db, ObjectChunk}
use git_cdc.Server.Tables.Counts.{Counted}
use git_cdc.Server.Tx.{TxError, Commits}
use git_cdc.Server.Gc.Queue.{GcWorld, drain_chunk_queue}
use git_cdc.Server.Gc.Queue.Safety.{
  Sound, Survives, Safe, Safe-in_transaction, drain_chunk_queue-Safe,
}
use git_cdc.Server.Gc.Reclaim.{
  expire_sessions, remove_sessions, reclaim_sessions, then_drained, reclaim_expired_uploads,
}

reclaim_sessions-Sound :
    (now seconds repository_id : ℕ) (db : Db)
    → Counted db
    → Commits (λ _ d. Sound db d × Unit {0}) (reclaim_sessions now seconds repository_id db)
unfolding reclaim_sessions expire_sessions remove_sessions
reclaim_sessions-Sound now seconds repository_id db v =
    ((record { counts = v.counts; links = v.links }, refl), tt)

module _ (b : Backing) (Q : b.objects.State → Type 0) where
  then_drained-Safe :
      (ls : List ObjectChunk) (repository_id : ℕ) (r : Result ℕ TxError) (w : GcWorld b)
      → Survives b Q ls
      → Safe b Q ls w
      → Safe b Q ls (then_drained b repository_id (r, w)).1
  unfolding then_drained
  then_drained-Safe ls repository_id (err e) w h s = s
  then_drained-Safe ls repository_id (ok n) w h (v, l, q) =
      subst (λ x. Safe b Q x (drain_chunk_queue b repository_id w).1) l
        (drain_chunk_queue-Safe b Q repository_id w (subst (Survives b Q) (sym l) h) v q)

  -- Suppose the reference counts are right, and a property `Q` of the store is kept by deleting any
  -- chunk that no object's link names. Then `reclaim_expired_uploads` keeps `Q`, the counts and the
  -- links, whether it succeeds or not and whichever transactions fail.
  pub reclaim_expired_uploads-Safe :
      (now repository_id grace : ℕ) (w : GcWorld b)
      → Survives b Q w.db.object_chunks
      → Counted w.db
      → Q w.store
      → Safe b Q w.db.object_chunks (reclaim_expired_uploads b now repository_id grace w).1
  unfolding reclaim_expired_uploads
  reclaim_expired_uploads-Safe now repository_id grace w h v q =
      elim (Bool-cases (ltb grace (2 ^ 63))) [
        | inl fits ↦
            let (s, _) =
              Safe-in_transaction b Q (λ _. Unit {0}) w.db.object_chunks
                (reclaim_sessions now grace repository_id) w (v, refl, q)
                (reclaim_sessions-Sound now grace repository_id w.db v) in
            rw (fits, reclaim_expired_uploads)
              (then_drained-Safe w.db.object_chunks repository_id _ _ h s)
        | inr large ↦ rw (large, reclaim_expired_uploads) (v, refl, q)
      ]
