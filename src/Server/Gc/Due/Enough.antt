-- ===== src/Server/Gc/Due/Enough.antt =====
-- `collect_due` returns: each of its rounds takes a tombstone away.
use git_cdc.Common.{
  ℕ, zero, suc, ◌+◌, ◌<◌, Bool, true, false, ◌≡◌, refl, sym, subst, ◌⊎◌, inl, inr, Option, none,
  some, length, Result, ok, err, arith,
}
use git_cdc.Storage.{Backing}
use git_cdc.Server.Schema.{Db}
use git_cdc.Server.Tables.Counts.{Counted}
use git_cdc.Server.Tx.{TxError}
use git_cdc.Server.World.{in_transaction}
use git_cdc.Server.World.Atomic.{in_transaction-Ended}
use git_cdc.Server.Gc.Collect.{collect_one, next_due}
use git_cdc.Server.Gc.Collect.Counted.{collect_one-Outcome}
use git_cdc.Server.Gc.Collect.Fewer.{delete_object-fewer}
use git_cdc.Server.Gc.Queue.{GcError, database_error, GcWorld}
use git_cdc.Server.Gc.Queue.Safety.{Survives, drain_chunk_queue-Safe}
use git_cdc.Server.Gc.Due.{collect_loop, drained, collect_due}

module _ (b : Backing) where
  -- The loop has ended with right counts and an untouched store; if it succeeded, nothing is due.
  pub record Finished (now repository_id : ℕ) (store : b.objects.State)
      (end : Option (Result ℕ GcError × GcWorld b)) : Type 0 where
    result : Result ℕ GcError
    world : GcWorld b
    ended : end ≡ some (result, world)
    counted : Counted world.db
    kept : world.store ≡ store
    none_due :
        (n : ℕ) → result ≡ ok n → next_due now repository_id world.db.object_tombstones ≡ none

  -- What a round's transaction may have done: nothing, when it failed or when nothing is due, or
  -- it has taken a tombstone away.
  abbrev Round : ℕ → ℕ → GcWorld b → Result Bool TxError × GcWorld b → Type 0
  Round now repository_id w (r, w') =
      (w'.store ≡ w.store)
      × (((e : TxError) × (r ≡ err e) × (w'.db ≡ w.db))
          ⊎ ((r ≡ ok false)
              × (w'.db ≡ w.db)
              × (next_due now repository_id w.db.object_tombstones ≡ none))
          ⊎ ((r ≡ ok true)
              × Counted w'.db
              × (length w'.db.object_tombstones < length w.db.object_tombstones)))

  collect_one-Round :
      (now repository_id : ℕ) (w : GcWorld b)
      → Counted w.db
      → Round now repository_id w (in_transaction (collect_one now repository_id) w)
  collect_one-Round now repository_id w v =
      let (kept, how) = in_transaction-Ended (collect_one now repository_id) w in
      elim how [
        | inl failed ↦ (kept, inl failed)
        | inr (a, r, done) ↦ elim (collect_one-Outcome now repository_id w.db v) [
          | inl (n, e) ↦ (kept, inr (inl (cc, cc, n)))
          | inr (t, d, n, e, c, same) ↦
              let there : d ≡ (in_transaction (collect_one now repository_id) w).1.db = cc in
              (
                kept,
                inr (
                    inr (
                      cc,
                      subst Counted there c,
                      subst (λ (x : Db). length x.object_tombstones < length w.db.object_tombstones)
                          there (rw same.2 (delete_object-fewer now repository_id w.db t n)),
                    )),
              )
        ]
      ]

  pub collect_loop-Finished :
      (fuel now repository_id deleted : ℕ) (w : GcWorld b)
      → Counted w.db
      → length w.db.object_tombstones < fuel
      → Finished now repository_id w.store (collect_loop b fuel now repository_id deleted w)
  unfolding collect_loop
  collect_loop-Finished zero now repository_id deleted w v h = absurd (omega arith)
  collect_loop-Finished (suc fuel) now repository_id deleted w v h =
      let (kept, how) = collect_one-Round now repository_id w v in
      elim how [
        | inl (e, r, same) ↦ record {
          result = err (database_error e);
          world = (in_transaction (collect_one now repository_id) w).1;
          ended = rw (r, collect_loop) refl;
          counted = subst Counted (sym same) v;
          kept = kept;
          none_due = λ n x. cc;
        }
        | inr (inl (r, same, n)) ↦ record {
          result = ok deleted;
          world = (in_transaction (collect_one now repository_id) w).1;
          ended = rw (r, collect_loop) refl;
          counted = subst Counted (sym same) v;
          kept = kept;
          none_due = λ _ _. rw same n;
        }
        | inr (inr (r, c, fewer)) ↦
            rw (r, collect_loop)
              (subst
                (λ s. Finished now repository_id s (
                  collect_loop b fuel now repository_id (deleted + 1)
                    (in_transaction (collect_one now repository_id) w).1))
                kept
                (collect_loop-Finished fuel now repository_id (deleted + 1)
                  (in_transaction (collect_one now repository_id) w).1 c (omega arith)))
      ]

  drained-Safe :
      (Q : b.objects.State → Type 0) (repository_id : ℕ) (r : Result ℕ GcError) (w : GcWorld b)
      → Counted w.db
      → Q w.store
      → let end = (drained b repository_id (r, w)).1 in
        Counted end.db × (Survives b Q end.db.object_chunks → Q end.store)
  unfolding drained
  drained-Safe Q repository_id (err e) w v q = (v, λ h. q)
  drained-Safe Q repository_id (ok n) w v q =
      let (c, l, _) =
        drain_chunk_queue-Safe b (λ _. Unit {0}) repository_id w (λ _ _ _ _. tt) v tt in
      (c, λ h. (drain_chunk_queue-Safe b Q repository_id w (subst (Survives b Q) l h) v q).2)

  -- Over right reference counts `collect_due` always returns: a round more than there are tombstones
  -- is enough for its loop. Then, and whatever failed on the way, the reference counts are right
  -- again, and every property of the store has survived that is kept by deleting chunks which no
  -- remaining link of an object names.
  pub collect_due-Safe :
      (Q : b.objects.State → Type 0) (now repository_id : ℕ) (w : GcWorld b)
      → Counted w.db
      → Q w.store
      → (r : Result ℕ GcError) × (w' : GcWorld b) × (collect_due b now repository_id w
          ≡ some (r, w'))
        × Counted w'.db
        × (Survives b Q w'.db.object_chunks → Q w'.store)
  unfolding collect_due
  collect_due-Safe Q now repository_id w v q =
      let f =
        collect_loop-Finished (suc (length w.db.object_tombstones)) now repository_id 0 w v
          (omega arith) in
      let (c, h) =
        drained-Safe Q repository_id f.result f.world f.counted (subst Q (sym f.kept) q) in
      (
        (drained b repository_id (f.result, f.world)).0,
        (drained b repository_id (f.result, f.world)).1,
        rw (f.ended, collect_due) refl,
        c,
        h,
      )
