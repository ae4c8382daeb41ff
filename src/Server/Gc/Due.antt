-- ===== src/Server/Gc/Due.antt =====
-- `collect_due` (crates/git-lfs-delta-server/src/gc.rs): rounds until no tombstone is due, then the
-- queue. The loop takes fuel: each round that goes on removes a tombstone.
pub mod Enough
mod Tests
use git_cdc.Common.{
  ℕ, zero, suc, ◌+◌, Bool, true, false, Option, none, some, length, Result, ok, err,
}
use git_cdc.Storage.{Backing}
use git_cdc.Server.Tx.{TxError}
use git_cdc.Server.World.{World, in_transaction}
use git_cdc.Server.Gc.Collect.{collect_one}
use git_cdc.Server.Gc.Queue.{GcError, database_error, GcWorld, drain_chunk_queue}

module _ (b : Backing) where
  -- The loop of `collect_due`, on fuel: `none` means that the fuel ran out.
  pub collect_loop : ℕ → ℕ → ℕ → ℕ → GcWorld b → Option (Result ℕ GcError × GcWorld b)
  collect_loop zero now repository_id deleted w = none
  collect_loop (suc fuel) now repository_id deleted w =
      let (r, w') = in_transaction (collect_one now repository_id) w in
      elim r [
        | err e ↦ some (err (database_error e), w')
        | ok more ↦ elim more [
          | false ↦ some (ok deleted, w')
          | true ↦ collect_loop fuel now repository_id (deleted + 1) w'
        ]
      ]

  -- After the loop the queue is drained, whatever the loop has collected.
  pub drained : ℕ → Result ℕ GcError × GcWorld b → Result ℕ GcError × GcWorld b
  drained repository_id (err e, w) = (err e, w)
  drained repository_id (ok deleted, w) =
      let (r, w') = drain_chunk_queue b repository_id w in
      (elim r [ ok x ↦ ok deleted | err e ↦ err e ], w')

  -- `collect_due`, with fuel for one round more than there are tombstones.
  pub collect_due : ℕ → ℕ → GcWorld b → Option (Result ℕ GcError × GcWorld b)
  collect_due now repository_id w =
      elim (collect_loop (suc (length w.db.object_tombstones)) now repository_id 0 w) [
        | none ↦ none
        | some r ↦ some (drained repository_id r)
      ]
