-- ===== src/Server/Locks/Tests.antt =====
-- Two callers and one path.
use git_cdc.Common.{
  inl, inr, ℕ, true, false, ◌≡◌, ◌↔◌, refl, List, [], ◌∷◌, All, ok, err, codes, list_eq,
}
use git_cdc.Server.Error.{api_error}
use git_cdc.Server.Schema.{Db, LfsLock}
use git_cdc.Server.World.{World}
use git_cdc.Server.World.Atomic.{in_transaction-ok}
use git_cdc.Server.Samples.{tables, world}
use git_cdc.Server.Locks.{
  Identity, lock_of, split, add_to_first, validate_lock_path, insert_lock, create_lock, unlock,
}
use git_cdc.Server.Locks.Paths.{Plain, validate_lock_path_iff}
use git_cdc.Server.Locks.Unlocking.{Unlocked, Removed, unlock-Unlocked, unlock-ok}
use git_cdc.Server.Locks.Excluding.{create_lock-excludes}

abbrev alice : Identity
alice = record { authorization = []; subject = 1 ∷ []; administrator = false }

abbrev root : Identity
root = record { authorization = []; subject = 2 ∷ []; administrator = true }

abbrev path : List ℕ
path = codes "art/hero.psd"

abbrev held : LfsLock
held = record {
  id = 5;
  repository_id = 1;
  path = path;
  owner_subject = alice.subject;
  created_at = 10;
}

abbrev unlocked_tables : Db
unlocked_tables = tables [] [] [] []

abbrev locked_tables : Db
locked_tables = record unlocked_tables { lfs_locks = held ∷ [] }

validate_lock_path_iff_example : (validate_lock_path path ≡ ok tt) ↔ All Plain (split path)
validate_lock_path_iff_example = validate_lock_path_iff path

validate_lock_path-path : validate_lock_path path ≡ ok tt
unfolding validate_lock_path split add_to_first list_eq
validate_lock_path-path = refl

insert_lock-held : insert_lock held unlocked_tables ≡ ok (tt, locked_tables)
unfolding insert_lock
insert_lock-held = refl

create_lock-held :
    (create_lock (ok alice) (ok 1) 10 5 path (world unlocked_tables)).0 ≡ ok (lock_of held)
unfolding create_lock
create_lock-held = rw (
  validate_lock_path-path,
  create_lock,
  in_transaction-ok (insert_lock held) (world unlocked_tables) tt locked_tables refl
      insert_lock-held,
)

abbrev after : World (List (List ℕ))
after = world (create_lock (ok alice) (ok 1) 10 5 path (world unlocked_tables)).1.db

create_lock-excludes_example :
    create_lock (ok root) (ok 1) 20 6 path after
    ≡ (err (api_error 409 "path is already locked"), after)
create_lock-excludes_example =
    create_lock-excludes alice root 1 10 5 20 6 path (world unlocked_tables) (lock_of held)
      create_lock-held after refl refl

unlock-Unlocked_example :
    Unlocked root 1 5 false [] locked_tables (unlock (ok root) (ok 1) 5 false (world locked_tables))
unlock-Unlocked_example = unlock-Unlocked root 1 5 false (world locked_tables)

unlock-ok_example :
    (d : Db) × (unlock (ok root) (ok 1) 5 true (world locked_tables)
      ≡ (ok (lock_of held), record (world locked_tables) { db = d }))
    × Removed 5 1 locked_tables d
unlock-ok_example =
    unlock-ok root 1 5 true (world locked_tables) held refl (inl refl) (inr refl, tt) (refl, refl)
      (inr (refl, refl))
