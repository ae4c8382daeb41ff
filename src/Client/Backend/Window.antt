-- ===== src/Client/Backend/Window.antt =====
-- The section of `download` in crates/git-lfs-delta-client/src/backend.rs that puts an object together
-- from chunks that workers bring in any order. `arrivals` are the results in the order in which they
-- are received; when there are no more, the workers have stopped.
-- A job can always be sent: a worker ends only when the jobs or the results are closed.
pub mod Ordered
use git_cdc.Common.{
  ℕ, zero, suc, ◌+◌, Bool, true, false, not, List, [], ◌∷◌, ◌++◌, Option, none, some, Result, ok,
  err, ◌>>=◌, length, nat_eq, ltb, codes, if◌then◌else◌,
}
use git_cdc.Client.Backend.Types.{failure}
use git_cdc.Client.Transfer.{BackendError}

abbrev pub Pending : Type 0
Pending = List (ℕ × List ℕ)

unfoldable pub find_pending : ℕ → Pending → Option (List ℕ)
find_pending i [] = none
find_pending i ((j, bytes) ∷ rest) = if nat_eq j i then some bytes else find_pending i rest

unfoldable pub remove_pending : ℕ → Pending → Pending
remove_pending i [] = []
remove_pending i ((j, bytes) ∷ rest) =
    let others = remove_pending i rest in if nat_eq j i then others else (j, bytes) ∷ others

unfoldable pub insert_pending : ℕ → List ℕ → Pending → Pending
insert_pending i bytes pending = (i, bytes) ∷ remove_pending i pending

-- `written` is what the hasher and the temporary file have been given.
pub record Window : Type 0 where
  pub next_scheduled : ℕ
  pub next_write : ℕ
  pub pending : Pending
  pub written : List ℕ

-- Before the first result: as many jobs as there are workers.
unfoldable pub opened : ℕ → ℕ → Window
opened total concurrency = record {
  next_scheduled = if ltb concurrency total then concurrency else total;
  next_write = 0;
  pending = [];
  written = [];
}

module _ (total : ℕ) (accepts : List ℕ → List ℕ → Bool) where
  -- The chunk that is next is written, and a job is scheduled if there is one left.
  unfoldable pub advance : List ℕ → Window → Window
  advance bytes w = record {
    next_scheduled = if ltb w.next_scheduled total then w.next_scheduled + 1 else w.next_scheduled;
    next_write = w.next_write + 1;
    pending = remove_pending w.next_write w.pending;
    written = w.written ++ bytes;
  }

  -- `while let Some(bytes) = pending.remove(&next_write)`; does the temporary file take the bytes?
  unfoldable pub flush : ℕ → Window → Result Window BackendError
  flush zero w = ok w
  flush (suc fuel) w = elim (find_pending w.next_write w.pending) [
    | none ↦ ok w
    | some bytes ↦
        let rest = flush fuel (advance bytes w) in
        if accepts w.written bytes
        then rest
        else err (failure (codes "could not reconstruct download"))
  ]

  abbrev pub received : ℕ → List ℕ → Window → Window
  received i bytes w = record w { pending = insert_pending i bytes w.pending }

  -- `while next_write < total`
  unfoldable pub collect :
      List (ℕ × Result (List ℕ) BackendError) → Window → Result Window BackendError
  collect [] w =
      if ltb w.next_write total then err (failure (codes "chunk download worker stopped")) else ok w
  collect ((i, result) ∷ rest) w =
      let round : Result Window BackendError = (do
        bytes ← result
        let w1 = received i bytes w
        w2 ← flush (suc (length w1.pending)) w1
        collect rest w2) in
      if ltb w.next_write total then round else ok w
