-- ===== src/Server/Gc/Due/Tests.antt =====
-- `collect_due` over tables with a tombstone that is due and an unreferenced chunk in the queue.
use git_cdc.Common.{ℕ, ◌≡◌, List, [], ◌∷◌, some, Result, All, arith}
use git_cdc.Storage.{chunk_path}
use git_cdc.Server.Schema.{Db, Tombstone, QueuedChunk}
use git_cdc.Server.Tables.Counts.{Counted}
use git_cdc.Server.Samples.{tables, tables-Counted, object, chunk, backing, world}
use git_cdc.Server.Gc.Queue.{GcError, GcWorld}
use git_cdc.Server.Gc.Queue.Safety.{Survives}
use git_cdc.Server.Gc.Due.{collect_due, collect_loop}
use git_cdc.Server.Gc.Due.Enough.{Finished, collect_loop-Finished, collect_due-Safe}

abbrev tombstones : List Tombstone
tombstones = record { object = object 50; delete_after = 5 } ∷ []

abbrev queue : List QueuedChunk
queue = record { chunk = chunk 42; queued_at = 3 } ∷ []

abbrev due : Db
due = tables [] [] tombstones queue

-- The path of object 50's last chunk has not been deleted.
abbrev Spared : List (List ℕ) → Type 0
Spared log = All (λ p. p ≡ chunk_path backing 1 (chunk 41).chunk_id → ⊥) log

collect_loop-Finished_example : Finished backing 10 1 [] (collect_loop backing 2 10 1 0 (world due))
collect_loop-Finished_example =
    collect_loop-Finished backing 2 10 1 0 (world due) (tables-Counted [] [] tombstones queue)
      (omega arith)

collect_due-Safe_example :
    (r : Result ℕ GcError) × (w : GcWorld backing) × (collect_due backing 10 1 (world due)
      ≡ some (r, w))
    × Counted w.db
    × (Survives backing Spared w.db.object_chunks → Spared w.store)
collect_due-Safe_example =
    collect_due-Safe backing Spared 10 1 (world due) (tables-Counted [] [] tombstones queue) tt
