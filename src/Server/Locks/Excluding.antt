-- ===== src/Server/Locks/Excluding.antt =====
-- A path that is locked cannot be locked again.
use git_cdc.Common.{
  ℕ, Bool, true, ◌&&◌, ◌||◌, ◌≡◌, sym, subst, List, [], ◌∷◌, any, ok, err, arith, inl, inr, nat_eq,
  list_eq, list_eq_iff, Result-cases,
}
use git_cdc.Server.Error.{api_error}
use git_cdc.Server.Schema.{Db, LfsLock}
use git_cdc.Server.Tx.{sql, unique_violation}
use git_cdc.Server.World.{World}
use git_cdc.Server.World.Atomic.{in_transaction-Ended, in_transaction-err}
use git_cdc.Server.Locks.{Identity, Lock, lock_error, validate_lock_path, insert_lock, create_lock}

-- Some row of the repository holds the path.
abbrev pub is_held : ℕ → List ℕ → List LfsLock → Bool
is_held repository_id path ls =
    any (λ (l : LfsLock). nat_eq l.repository_id repository_id && list_eq l.path path) ls

insert_lock-is_held :
    (new : LfsLock) (db d : Db)
    → insert_lock new db ≡ ok (tt, d)
    → is_held new.repository_id new.path d.lfs_locks ≡ true
unfolding insert_lock
insert_lock-is_held new db d e = ground (arith, list_eq_iff new.path new.path)

clash :
    (new : LfsLock) (ls : List LfsLock)
    → is_held new.repository_id new.path ls ≡ true
    → any
        (λ (l : LfsLock).
          nat_eq l.id new.id
          || (nat_eq l.repository_id new.repository_id && list_eq l.path new.path))
        ls
      ≡ true
clash new [] h = cc
clash new (l ∷ ls) h = ground (arith, clash new ls)

insert_lock-clash :
    (new : LfsLock) (db : Db)
    → is_held new.repository_id new.path db.lfs_locks ≡ true
    → insert_lock new db ≡ err (sql unique_violation)
unfolding insert_lock
insert_lock-clash new db h = ground (arith, clash new db.lfs_locks h)

module _ {S : Type 0} where
  -- If `create_lock` has locked a path for one caller, then every later `create_lock` of that path in
  -- the repository, over the tables that it left and without a connection failure, is refused as a conflict and
  -- changes nothing, whoever asks.
  pub create_lock-excludes :
      (first second : Identity) (repository_id now fresh later other : ℕ) (path : List ℕ)
      (w : World S) (lock : Lock)
      → (create_lock (ok first) (ok repository_id) now fresh path w).0 ≡ ok lock
      → (v : World S) → v.db ≡ (create_lock (ok first) (ok repository_id) now fresh path w).1.db
      → v.faults ≡ []
      → create_lock (ok second) (ok repository_id) later other path v
        ≡ (err (api_error 409 "path is already locked"), v)
  unfolding create_lock lock_error
  create_lock-excludes first second repository_id now fresh later other path w lock e v same calm =
      elim (Result-cases (validate_lock_path path)) [
        | inr (x, f) ↦ absurd (cc (rw (f, create_lock) at e))
        | inl (_, f) ↦
            let (_, how) = in_transaction-Ended (insert_lock (new first now fresh)) w in
            elim how [
              | inl (x, r, _) ↦ absurd (cc (rw (f, create_lock, r) at e))
              | inr (_, r, done) ↦
                  let held =
                    subst (λ (d : Db). is_held repository_id path d.lfs_locks ≡ true)
                      (sym (rw (f, create_lock) at same))
                      (insert_lock-is_held (new first now fresh) w.db _ done) in
                  rw (
                    f,
                    create_lock,
                    in_transaction-err (insert_lock (new second later other)) v
                        (sql unique_violation) calm
                        (insert_lock-clash (new second later other) v.db held),
                  )
            ]
      ]
    where
      new : Identity → ℕ → ℕ → LfsLock
      new identity time id = record {
        id = id;
        repository_id = repository_id;
        path = path;
        owner_subject = identity.subject;
        created_at = time;
      }
