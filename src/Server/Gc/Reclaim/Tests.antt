-- ===== src/Server/Gc/Reclaim/Tests.antt =====
-- Reclaiming an upload that expired long ago.
use git_cdc.Common.{ℕ, List, [], ◌∷◌, All, ◌≡◌, refl}
use git_cdc.Storage.{chunk_path}
use git_cdc.Storage.Integrity.{delete_chunk-state}
use git_cdc.Server.Schema.{Db, ChunkKey, ObjectChunk, open_state}
use git_cdc.Server.Tables.{references}
use git_cdc.Server.Samples.{tables, tables-Counted, chunk, session, backing, world}
use git_cdc.Server.Gc.Queue.Safety.{Safe, Survives}
use git_cdc.Server.Gc.Reclaim.{reclaim_expired_uploads}
use git_cdc.Server.Gc.Reclaim.Kept.{reclaim_expired_uploads-Safe}

abbrev abandoned : Db
abandoned =
    tables (session 70 open_state ∷ []) (record { session_id = 70; chunk = chunk 42 } ∷ []) [] []

-- Each path in the log is that of a chunk that no link names.
abbrev Unlinked : List ObjectChunk → List (List ℕ) → Type 0
Unlinked ls log =
    All
      (λ p.
        (k : ChunkKey) × (references k ls ≡ 0)
        × (p ≡ chunk_path backing k.repository_id k.chunk_id))
      log

Unlinked-Survives : (ls : List ObjectChunk) → Survives backing (Unlinked ls) ls
Unlinked-Survives ls k log z q =
    rw (delete_chunk-state backing k.repository_id k.chunk_id log) ((k, z, refl), q)

reclaim_expired_uploads-Safe_example :
    Safe backing
      (Unlinked abandoned.object_chunks)
      abandoned.object_chunks
      (reclaim_expired_uploads backing 5000 1 60 (world abandoned)).1
reclaim_expired_uploads-Safe_example =
    reclaim_expired_uploads-Safe backing (Unlinked abandoned.object_chunks) 5000 1 60
      (world abandoned) (Unlinked-Survives abandoned.object_chunks)
      (tables-Counted (session 70 open_state ∷ [])
        (record { session_id = 70; chunk = chunk 42 } ∷ []) [] [])
      tt
