-- ===== src/Server/Gc/Snapshots.antt =====
-- Reachability snapshots and staging (crates/git-lfs-delta-server/src/gc.rs): `submit_snapshot`,
-- `dry_run` and `stage`. `now` is the time of the statements in seconds, and `fresh` the id that
-- `Uuid::new_v4` gives.
pub mod Spared
mod Tests
use git_cdc.Common.{
  ℕ, ◌+◌, ◌^◌, Bool, true, false, not, ◌&&◌, ◌||◌, List, [], ◌∷◌, take, length, map, any, keep,
  ◌==◌, nat_eq, ltb, leb, if◌then◌else◌, Result, ok, err, Option, none, some,
}
use git_cdc.Core.Digest.{ObjectOid, object_oid_Eq}
use git_cdc.Server.Schema.{Db, ObjectKey, Object, Epoch, ReachableObject, Tombstone, object_key_Eq}
use git_cdc.Server.Tables.{repository_exists, find_object}
use git_cdc.Server.Tx.{
  Tx, TxError, pure, ◌>>=◌, ◌>>◌, select, modify, require, sql, unique_violation,
  foreign_key_violation, protocol,
}
use git_cdc.Server.World.{World, in_transaction}

pub record ReachabilitySnapshot : Type 0 where
  pub repository_id : ℕ
  pub ref_fingerprint : List ℕ
  pub reachable_objects : List ObjectOid

pub record GcCandidate : Type 0 where
  pub oid : ObjectOid
  pub size : ℕ

-- `INSERT INTO reachable_objects`, whose primary key is the pair.
pub insert_reachable : ℕ → ObjectOid → Tx (Unit {0})
insert_reachable epoch oid db =
    (do
      require
          (not (
            any (λ (r : ReachableObject). nat_eq r.epoch_id epoch && r.object_oid == oid)
              db.reachable_objects))
          (sql unique_violation)
      modify (λ d. record d {
        reachable_objects = record { epoch_id = epoch; object_oid = oid } ∷ d.reachable_objects;
      }))
      db

pub insert_all_reachable : ℕ → List ObjectOid → Tx (Unit {0})
insert_all_reachable epoch [] = pure tt
insert_all_reachable epoch (oid ∷ oids) =
    insert_reachable epoch oid >> insert_all_reachable epoch oids

-- `UPDATE reachability_epochs SET complete = true, completed_at = now() WHERE id = $1`
pub complete_epoch : ℕ → ℕ → List Epoch → List Epoch
complete_epoch now id [] = []
complete_epoch now id (e ∷ es) =
    (if nat_eq e.id id then record e { complete = true; completed_at = now } else e)
    ∷ complete_epoch now id es

-- The transaction of `submit_snapshot`.
pub submit_snapshot : ℕ → ℕ → ReachabilitySnapshot → Tx ℕ
submit_snapshot now fresh snapshot db =
    (do
      require (not (any (λ (e : Epoch). nat_eq e.id fresh) db.reachability_epochs))
          (sql unique_violation)
      require (repository_exists snapshot.repository_id db) (sql foreign_key_violation)
      modify (λ d. record d {
        reachability_epochs =
            record {
              id = fresh;
              repository_id = snapshot.repository_id;
              ref_fingerprint = snapshot.ref_fingerprint;
              complete = false;
              completed_at = 0;
            }
            ∷ d.reachability_epochs;
      })
      insert_all_reachable fresh snapshot.reachable_objects
      modify
          (λ d. record d { reachability_epochs = complete_epoch now fresh d.reachability_epochs })
      pure fresh)
      db

-- `ORDER BY completed_at DESC, id DESC`
newer : Epoch → Epoch → Bool
newer a b =
    ltb b.completed_at a.completed_at || (nat_eq a.completed_at b.completed_at && leb b.id a.id)

insert_epoch : Epoch → List Epoch → List Epoch
insert_epoch e [] = e ∷ []
insert_epoch e (f ∷ fs) = if newer e f then e ∷ f ∷ fs else f ∷ insert_epoch e fs

sort_epochs : List Epoch → List Epoch
sort_epochs [] = []
sort_epochs (e ∷ es) = insert_epoch e (sort_epochs es)

-- The two newest complete epochs of a repository.
pub latest : ℕ → Db → List Epoch
latest repository_id db = take 2 (
    sort_epochs (
      keep (λ (e : Epoch). nat_eq e.repository_id repository_id && e.complete)
        db.reachability_epochs))

-- Is the object in one of the snapshots?
pub reached : ObjectOid → List Epoch → List ReachableObject → Bool
reached oid es rows =
    any
      (λ (r : ReachableObject).
        r.object_oid == oid && any (λ (e : Epoch). nat_eq e.id r.epoch_id) es)
      rows

pub tombstoned : ObjectKey → List Tombstone → Bool
tombstoned k [] = false
tombstoned k (t ∷ ts) = if t.object == k then true else tombstoned k ts

-- `ORDER BY o.oid`: bytes in their order.
bytes_leb : List ℕ → List ℕ → Bool
bytes_leb [] ys = true
bytes_leb (x ∷ xs) [] = false
bytes_leb (x ∷ xs) (y ∷ ys) = ltb x y || (nat_eq x y && bytes_leb xs ys)

insert_candidate : GcCandidate → List GcCandidate → List GcCandidate
insert_candidate c [] = c ∷ []
insert_candidate c (d ∷ ds) =
    if bytes_leb c.oid.bytes d.oid.bytes then c ∷ d ∷ ds else d ∷ insert_candidate c ds

sort_candidates : List GcCandidate → List GcCandidate
sort_candidates [] = []
sort_candidates (c ∷ cs) = insert_candidate c (sort_candidates cs)

-- The objects that the query selects.
pub unreached : ℕ → List Epoch → Db → List Object → List GcCandidate
unreached repository_id es db [] = []
unreached repository_id es db (o ∷ os) =
    if nat_eq o.key.repository_id repository_id
      && (not (reached o.key.oid es db.reachable_objects)
          && not (tombstoned o.key db.object_tombstones))
    then record { oid = o.key.oid; size = o.size } ∷ unreached repository_id es db os
    else unreached repository_id es db os

-- `dry_run`
pub dry_run : ℕ → Db → List GcCandidate
dry_run repository_id db =
    if nat_eq (length (latest repository_id db)) 2
    then sort_candidates (unreached repository_id (latest repository_id db) db db.objects)
    else []

-- `INSERT INTO object_tombstones ... ON CONFLICT DO NOTHING`
pub insert_tombstone : ObjectKey → ℕ → Tx (Unit {0})
insert_tombstone key delete_after db =
    if tombstoned key db.object_tombstones
    then pure tt db
    else (do
      require (elim (find_object key db.objects) [ none ↦ false | some _ ↦ true ])
          (sql foreign_key_violation)
      modify (λ d. record d {
        object_tombstones =
            record { object = key; delete_after = delete_after } ∷ d.object_tombstones;
      }))
        db

pub insert_tombstones : ℕ → ℕ → List GcCandidate → Tx (Unit {0})
insert_tombstones repository_id delete_after [] = pure tt
insert_tombstones repository_id delete_after (c ∷ cs) =
    insert_tombstone (record { repository_id = repository_id; oid = c.oid }) delete_after
    >> insert_tombstones repository_id delete_after cs

abbrev pub i64_limit : ℕ
i64_limit = 2 ^ 63

module _ {S : Type 0} where
  staged :
      List GcCandidate
      → Result (Unit {0}) TxError × World S
      → Result (List GcCandidate) TxError × World S
  staged candidates (ok _, w) = (ok candidates, w)
  staged candidates (err e, w) = (err e, w)

  -- `stage`: the candidates are read before the transaction that stages them.
  pub stage : ℕ → ℕ → ℕ → World S → Result (List GcCandidate) TxError × World S
  stage now repository_id grace w =
      let (r, w') = in_transaction (select (dry_run repository_id)) w in
      elim r [
        | err e ↦ (err e, w')
        | ok candidates ↦ elim (ltb grace i64_limit) [
          | false ↦ (err (sql protocol), w')
          | true ↦
              staged candidates
                (in_transaction (insert_tombstones repository_id (now + grace) candidates) w')
        ]
      ]
