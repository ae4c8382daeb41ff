-- ===== src/Server/Gc/Snapshots/Spared.antt =====
-- An object that one of the two newest snapshots lists is not staged.
use git_cdc.Common.{
  ℕ, ◌+◌, Bool, true, false, ◌≡◌, ◌≢◌, refl, ap, sym, subst, List, [], ◌∷◌, All, nat_eq, ltb, arith,
  ok, err, inl, inr, Result, Bool-cases, length,
}
use git_cdc.Core.Digest.{ObjectOid}
use git_cdc.Server.Schema.{Db, ObjectKey, Object, Epoch, object_key_Eq, object_key_eq_iff}
use git_cdc.Server.Tx.{Tx, TxError, Commits, Commits->>=, Commits-eq, select}
use git_cdc.Server.World.{World, in_transaction}
use git_cdc.Server.World.Atomic.{in_transaction-Ended}
use git_cdc.Server.Gc.Snapshots.{
  GcCandidate, latest, reached, tombstoned, insert_candidate, sort_candidates, unreached, dry_run,
  insert_tombstone, insert_tombstones, staged, stage, i64_limit,
}

module _ (P : GcCandidate → Type 0) where
  All-insert_candidate :
      (c : GcCandidate) (cs : List GcCandidate) → P c → All P cs → All P (insert_candidate c cs)
  unfolding insert_candidate
  All-insert_candidate c [] p h = (p, tt)
  All-insert_candidate c (d ∷ ds) p h = ground (arith, All-insert_candidate c ds p h.1)

  All-sort_candidates : (cs : List GcCandidate) → All P cs → All P (sort_candidates cs)
  unfolding sort_candidates
  All-sort_candidates [] h = tt
  All-sort_candidates (c ∷ cs) h =
      All-insert_candidate c (sort_candidates cs) h.0 (All-sort_candidates cs h.1)

-- A candidate is another object than one that the snapshots list.
unreached-ne :
    (repository_id : ℕ) (oid : ObjectOid) (es : List Epoch) (db : Db) (os : List Object)
    → reached oid es db.reachable_objects ≡ true
    → All (λ (c : GcCandidate). c.oid ≢ oid) (unreached repository_id es db os)
unfolding unreached
unreached-ne repository_id oid es db [] h = tt
unreached-ne repository_id oid es db (o ∷ os) h =
    elim (Bool-cases (reached o.key.oid es db.reachable_objects)) [
      | inl listed ↦ ground (arith, unreached-ne repository_id oid es db os h)
      | inr unlisted ↦
          let differ : o.key.oid ≢ oid =
            λ q. cc (subst (λ x. reached x es db.reachable_objects ≡ false) q unlisted) in
          ground (arith, differ, unreached-ne repository_id oid es db os h)
    ]

dry_run-ne :
    (repository_id : ℕ) (oid : ObjectOid) (db : Db)
    → reached oid (latest repository_id db) db.reachable_objects ≡ true
    → All (λ (c : GcCandidate). c.oid ≢ oid) (dry_run repository_id db)
unfolding dry_run
dry_run-ne repository_id oid db h =
    elim (Bool-cases (nat_eq (length (latest repository_id db)) 2)) [
      | inl two ↦
          rw (two, dry_run)
            (All-sort_candidates (λ c. c.oid ≢ oid) _
              (unreached-ne repository_id oid _ db db.objects h))
      | inr other ↦ rw (other, dry_run) tt
    ]

-- Is the object staged? The statements for other objects do not change that.
module _ (repository_id : ℕ) (oid : ObjectOid) (answer : Bool) where
  abbrev Staged : Db → Type 0
  Staged db =
      tombstoned (record { repository_id = repository_id; oid = oid }) db.object_tombstones ≡ answer

  insert_tombstone-Staged :
      (c : GcCandidate) (delete_after : ℕ) (db : Db)
      → c.oid ≢ oid
      → Staged db
      → Commits
          (λ _ d. Staged d)
          (insert_tombstone (record { repository_id = repository_id; oid = c.oid }) delete_after db)
  unfolding insert_tombstone tombstoned
  insert_tombstone-Staged c delete_after db h s = ground (
    arith,
    object_key_eq_iff (record { repository_id = repository_id; oid = c.oid })
        (record { repository_id = repository_id; oid = oid }),
  )

  insert_tombstones-Staged :
      (delete_after : ℕ) (cs : List GcCandidate) (db : Db)
      → All (λ (c : GcCandidate). c.oid ≢ oid) cs
      → Staged db
      → Commits (λ _ d. Staged d) (insert_tombstones repository_id delete_after cs db)
  unfolding insert_tombstones
  insert_tombstones-Staged delete_after [] db h s = s
  insert_tombstones-Staged delete_after (c ∷ cs) db h s =
      Commits->>= (λ _ d. Staged d) (λ _ d. Staged d)
        (insert_tombstone (record { repository_id = repository_id; oid = c.oid }) delete_after)
        (λ _. insert_tombstones repository_id delete_after cs) db
        (insert_tombstone-Staged c delete_after db h.0 s)
        (λ _ d t. insert_tombstones-Staged delete_after cs d h.1 t)

  in_transaction-Staged :
      {S A : Type 0} (tx : Tx A) (w : World S)
      → Staged w.db
      → Commits (λ _ d. Staged d) (tx w.db)
      → Staged (in_transaction tx w).1.db
  in_transaction-Staged tx w s h =
      let (kept, how) = in_transaction-Ended tx w in
      elim how [
        | inl (e, r, same) ↦ subst Staged (sym same) s
        | inr (a, r, done) ↦ Commits-eq _ _ a _ h done
      ]

  staged-world :
      {S : Type 0} (cs : List GcCandidate) (r : Result (Unit {0}) TxError) (w : World S)
      → (staged cs (r, w)).1 ≡ w
  unfolding staged
  staged-world cs (ok _) w = refl
  staged-world cs (err e) w = refl

-- If one of the two newest complete snapshots of a repository lists an object, `stage` does not
-- stage it: it has a tombstone afterwards only if it had one before, whether `stage` succeeds or
-- not and whichever transactions fail.
pub stage-spares :
    {S : Type 0} (now repository_id grace : ℕ) (oid : ObjectOid) (w : World S)
    → reached oid (latest repository_id w.db) w.db.reachable_objects ≡ true
    → tombstoned
        (record { repository_id = repository_id; oid = oid })
        (stage now repository_id grace w).1.db.object_tombstones
      ≡ tombstoned (record { repository_id = repository_id; oid = oid }) w.db.object_tombstones
unfolding stage
stage-spares now repository_id grace oid w h =
    let (_, how) = in_transaction-Ended (select (dry_run repository_id)) w in
    elim how [
      | inl (e, r, same) ↦ rw (r, stage) (before same)
      | inr (candidates, r, done) ↦
          let here : w.db ≡ (in_transaction (select (dry_run repository_id)) w).1.db = cc in
          let others : All (λ (c : GcCandidate). c.oid ≢ oid) candidates =
            subst (All (λ (c : GcCandidate). c.oid ≢ oid)) (cc)
              (dry_run-ne repository_id oid w.db h) in
          elim (Bool-cases (ltb grace i64_limit)) [
            | inl fits ↦
                rw (r, stage, fits)
                  (subst
                    (λ (x : World _).
                      Staged repository_id oid (tombstoned key w.db.object_tombstones) x.db)
                    (sym (
                      staged-world repository_id oid (tombstoned key w.db.object_tombstones)
                        candidates _ _))
                    (in_transaction-Staged repository_id oid (tombstoned key w.db.object_tombstones)
                      (insert_tombstones repository_id (now + grace) candidates) _
                      (before (sym here))
                      (insert_tombstones-Staged repository_id oid
                        (tombstoned key w.db.object_tombstones) (now + grace) candidates _ others
                        (before (sym here)))))
            | inr large ↦ rw (r, stage, large) (before (sym here))
          ]
    ]
  where
    key : ObjectKey
    key = record { repository_id = repository_id; oid = oid }

    before :
        (in_transaction (select (dry_run repository_id)) w).1.db ≡ w.db
        → tombstoned key (in_transaction (select (dry_run repository_id)) w).1.db.object_tombstones
          ≡ tombstoned key w.db.object_tombstones
    before e = ap (λ (d : Db). tombstoned key d.object_tombstones) e
