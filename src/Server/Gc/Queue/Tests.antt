-- ===== src/Server/Gc/Queue/Tests.antt =====
-- Draining the queue over tables where chunk 42 is unreferenced.
use git_cdc.Common.{ℕ, ◌≡◌, refl, List, [], ◌∷◌, err, All, list_eq}
use git_cdc.Core.Digest.{chunk_id_eq}
use git_cdc.Storage.{chunk_path}
use git_cdc.Storage.Integrity.{delete_chunk-state, delete_chunk-ok}
use git_cdc.Server.Schema.{Db, ChunkKey, ObjectChunk, QueuedChunk, finalized, chunk_key_eq}
use git_cdc.Server.Tables.{references, find_chunk, session_names}
use git_cdc.Server.Tx.{sql, foreign_key_violation}
use git_cdc.Server.Samples.{tables, tables-Counted, chunk, row, session, backing, world}
use git_cdc.Server.Gc.Queue.{
  database_error, queued_of, sort_queued, insert_queued, names_open_session, drain_chunk_queue,
}
use git_cdc.Server.Gc.Queue.Safety.{Safe, Survives, drain_chunk_queue-Safe}
use git_cdc.Server.Gc.Queue.Blocked.{Stranded, drain_chunk_queue-Stranded}

abbrev unreferenced : QueuedChunk
unreferenced = record { chunk = chunk 42; queued_at = 3 }

abbrev still_used : QueuedChunk
still_used = record { chunk = chunk 40; queued_at = 2 }

abbrev waiting : Db
waiting = tables [] [] [] (unreferenced ∷ still_used ∷ [])

-- Each path in the log is that of a chunk that no link names.
abbrev Unlinked : List ObjectChunk → List (List ℕ) → Type 0
Unlinked ls log =
    All
      (λ p.
        (k : ChunkKey) × (references k ls ≡ 0)
        × (p ≡ chunk_path backing k.repository_id k.chunk_id))
      log

Unlinked-Survives : (ls : List ObjectChunk) → Survives backing (Unlinked ls) ls
Unlinked-Survives ls k log z q =
    rw (delete_chunk-state backing k.repository_id k.chunk_id log) ((k, z, refl), q)

drain_chunk_queue-Safe_example :
    Safe backing
      (Unlinked waiting.object_chunks)
      waiting.object_chunks
      (drain_chunk_queue backing 1 (world waiting)).1
drain_chunk_queue-Safe_example =
    drain_chunk_queue-Safe backing (Unlinked waiting.object_chunks) 1 (world waiting)
      (Unlinked-Survives waiting.object_chunks)
      (tables-Counted [] [] [] (unreferenced ∷ still_used ∷ [])) tt

-- The finalized session 70 uploaded chunk 42.
abbrev blocked : Db
blocked =
    tables (session 70 finalized ∷ []) (record { session_id = 70; chunk = chunk 42 } ∷ []) []
      (unreferenced ∷ [])

blocked-Stranded : Stranded (chunk 42) blocked
unfolding find_chunk session_names names_open_session chunk_key_eq chunk_id_eq list_eq
blocked-Stranded = record {
  row = row 42 0;
  is_there = refl;
  unreferenced = refl;
  not_open = refl;
  named = refl;
}

queued_of-blocked : queued_of 1 blocked ≡ unreferenced ∷ []
unfolding queued_of sort_queued insert_queued
queued_of-blocked = refl

drain_chunk_queue-Stranded_example : drain_chunk_queue backing 1 (world blocked) ≡ (
  err (database_error (sql foreign_key_violation)),
  record (world blocked) { store = chunk_path backing 1 (chunk 42).chunk_id ∷ [] },
)
drain_chunk_queue-Stranded_example =
    drain_chunk_queue-Stranded backing 1 (world blocked) unreferenced []
      (chunk_path backing 1 (chunk 42).chunk_id ∷ []) refl queued_of-blocked blocked-Stranded
      (delete_chunk-ok backing 1 (chunk 42).chunk_id [] _ refl)
