-- ===== src/Server/Locks.antt =====
-- The lock handlers (crates/git-lfs-delta-server/src/lib.rs). What `authenticate` and
-- `repository_id` have answered is an argument of each; a statement that stands alone is a
-- transaction of its own. A lock's `locked_at` is the time of its row.
pub mod Unlocking
pub mod Paths
pub mod Excluding
mod Tests
use git_cdc.Common.{
  ℕ, ◌+◌, ◌^◌, Bool, true, false, not, ◌&&◌, ◌||◌, List, [], ◌∷◌, Option, none, some, take, length,
  keep, any, map, ◌==◌, bytes_eq, nat_eq, ltb, leb, list_eq, codes, if◌then◌else◌, Result, ok, err,
  map_err,
}
use git_cdc.Server.Error.{ApiError, api_error, database}
use git_cdc.Server.Schema.{Db, LfsLock}
use git_cdc.Server.Tables.{repository_exists}
use git_cdc.Server.Tx.{
  Tx, TxError, pure, ◌>>=◌, ◌>>◌, select, modify, require, or_fail, sql, api, unique_violation,
  foreign_key_violation, to_api,
}
use git_cdc.Server.World.{World, in_transaction}

pub record Identity : Type 0 where
  pub authorization : List ℕ
  pub subject : List ℕ
  pub administrator : Bool

pub record LockListQuery : Type 0 where
  pub path : Option (List ℕ)
  pub id : Option ℕ
  pub cursor : Option ℕ
  pub limit : Option ℕ

-- `Lock`, with the name of its owner.
pub record Lock : Type 0 where
  pub id : ℕ
  pub path : List ℕ
  pub locked_at : ℕ
  pub owner : List ℕ

abbrev pub lock_of : LfsLock → Lock
lock_of l = record { id = l.id; path = l.path; locked_at = l.created_at; owner = l.owner_subject }

-- `str::split('/')`
pub add_to_first : ℕ → List (List ℕ) → List (List ℕ)
add_to_first c [] = (c ∷ []) ∷ []
add_to_first c (p ∷ ps) = (c ∷ p) ∷ ps

pub split : List ℕ → List (List ℕ)
split [] = [] ∷ []
split (c ∷ cs) = let rest = split cs in if nat_eq c 47 then [] ∷ rest else add_to_first c rest

abbrev pub is_empty : List ℕ → Bool
is_empty [] = true
is_empty (c ∷ cs) = false

abbrev starts_with_slash : List ℕ → Bool
starts_with_slash [] = false
starts_with_slash (c ∷ cs) = nat_eq c 47

pub validate_lock_path : List ℕ → Result (Unit {0}) ApiError
validate_lock_path path =
    if is_empty path
      || (starts_with_slash path
          || any (λ component. list_eq component (codes "..") || is_empty component) (split path))
    then err (api_error 422 "lock path must be a normalized repository-relative path")
    else ok tt

-- `INSERT INTO lfs_locks`: the id is unique, and the path within its repository.
pub insert_lock : LfsLock → Tx (Unit {0})
insert_lock new db =
    (do
      require
          (not (
            any
              (λ (l : LfsLock).
                nat_eq l.id new.id
                || (nat_eq l.repository_id new.repository_id && list_eq l.path new.path))
              db.lfs_locks))
          (sql unique_violation)
      require (repository_exists new.repository_id db) (sql foreign_key_violation)
      modify (λ d. record d { lfs_locks = new ∷ d.lfs_locks }))
      db

-- SQLSTATE 23505 is a unique violation.
pub lock_error : TxError → ApiError
lock_error (sql unique_violation) = api_error 409 "path is already locked"
lock_error e = to_api e

pub owner_of : ℕ → ℕ → List LfsLock → Option (List ℕ)
owner_of lock_id repository_id [] = none
owner_of lock_id repository_id (l ∷ ls) =
    if nat_eq l.id lock_id && nat_eq l.repository_id repository_id
    then some l.owner_subject
    else owner_of lock_id repository_id ls

-- The row that `DELETE ... RETURNING` gives, and the rows that it leaves.
pub find_lock : ℕ → ℕ → List LfsLock → Option LfsLock
find_lock lock_id repository_id [] = none
find_lock lock_id repository_id (l ∷ ls) =
    if nat_eq l.id lock_id && nat_eq l.repository_id repository_id
    then some l
    else find_lock lock_id repository_id ls

pub remove_lock : ℕ → ℕ → List LfsLock → List LfsLock
remove_lock lock_id repository_id [] = []
remove_lock lock_id repository_id (l ∷ ls) =
    if nat_eq l.id lock_id && nat_eq l.repository_id repository_id
    then remove_lock lock_id repository_id ls
    else l ∷ remove_lock lock_id repository_id ls

pub delete_lock : ℕ → ℕ → Tx Lock
delete_lock lock_id repository_id = do
  row ← select (λ db. find_lock lock_id repository_id db.lfs_locks)
  lock ← or_fail row (api (api_error 404 "lock not found"))
  modify (λ db. record db { lfs_locks = remove_lock lock_id repository_id db.lfs_locks })
  pure (lock_of lock)

pub load_owner : ℕ → ℕ → Tx (List ℕ)
load_owner lock_id repository_id = do
  row ← select (λ db. owner_of lock_id repository_id db.lfs_locks)
  or_fail row (api (api_error 404 "lock not found"))

pub forbidden : List ℕ → Bool → Identity → Bool
forbidden lock_owner force identity =
    not (list_eq lock_owner identity.subject) && (not force || not identity.administrator)

-- `$2 IS NULL OR column = $2`
abbrev pub null_or : {A : Type 0} → (A → Bool) → Option A → Bool
null_or p none = true
null_or p (some a) = p a

pub insert_by_id : LfsLock → List LfsLock → List LfsLock
insert_by_id l [] = l ∷ []
insert_by_id l (m ∷ ms) = if leb l.id m.id then l ∷ m ∷ ms else m ∷ insert_by_id l ms

pub sort_by_id : List LfsLock → List LfsLock
sort_by_id [] = []
sort_by_id (l ∷ ls) = insert_by_id l (sort_by_id ls)

-- The query's rows, before its limit.
pub lock_rows : ℕ → LockListQuery → List LfsLock → List LfsLock
lock_rows repository_id query ls = sort_by_id (
    keep
      (λ (l : LfsLock).
        nat_eq l.repository_id repository_id
        && (null_or (λ path. list_eq l.path path) query.path
            && (null_or (λ id. nat_eq l.id id) query.id
                && null_or (λ cursor. ltb cursor l.id) query.cursor)))
      ls)

-- `requested_limit.unwrap_or(100).clamp(1, 100)`
pub page_limit : Option ℕ → ℕ
page_limit none = 100
page_limit (some n) = if ltb n 1 then 1 else if ltb 100 n then 100 else n

abbrev pub last_id : List Lock → Option ℕ
last_id [] = none
last_id (l ∷ []) = some l.id
last_id (l ∷ m ∷ ms) = last_id (m ∷ ms)

-- `load_locks_page`
pub load_locks_page : ℕ → LockListQuery → Tx (List Lock × Option ℕ)
load_locks_page repository_id query = do
  rows ←
      select (λ db. take (page_limit query.limit + 1) (lock_rows repository_id query db.lfs_locks))
  pure (page (map lock_of rows))
  where
    page : List Lock → List Lock × Option ℕ
    page locks =
        let shown = take (page_limit query.limit) locks in
        (shown, if ltb (page_limit query.limit) (length locks) then last_id shown else none)

module _ {S : Type 0} where
  abbrev pub answer :
      {A : Type 0} → (TxError → ApiError) → Result A TxError × World S → Result A ApiError × World S
  answer f (r, w) = (map_err f r, w)

  -- `create_lock`
  pub create_lock :
      Result Identity ApiError
      → Result ℕ ApiError
      → ℕ
      → ℕ
      → List ℕ
      → World S
      → Result Lock ApiError × World S
  create_lock (err e) repository now fresh path w = (err e, w)
  create_lock (ok identity) repository now fresh path w = elim (validate_lock_path path) [
    | err e ↦ (err e, w)
    | ok _ ↦ elim repository [
      | err e ↦ (err e, w)
      | ok repository_id ↦
          let new : LfsLock = record {
            id = fresh;
            repository_id = repository_id;
            path = path;
            owner_subject = identity.subject;
            created_at = now;
          } in
          let (r, w') = in_transaction (insert_lock new) w in
          (elim r [ err e ↦ err (lock_error e) | ok _ ↦ ok (lock_of new) ], w')
    ]
  ]

  -- The part of `unlock` once the owner is known.
  removed :
      ℕ → ℕ → Bool → Identity → Result (List ℕ) TxError → World S → Result Lock ApiError × World S
  removed lock_id repository_id force identity (err e) w = (err (to_api e), w)
  removed lock_id repository_id force identity (ok lock_owner) w =
      elim (forbidden lock_owner force identity) [
        | true ↦ (
          err (api_error 403 "only the lock owner or an administrator using force may unlock"),
          w,
        )
        | false ↦ answer to_api (in_transaction (delete_lock lock_id repository_id) w)
      ]

  -- `unlock`
  pub unlock :
      Result Identity ApiError
      → Result ℕ ApiError
      → ℕ
      → Bool
      → World S
      → Result Lock ApiError × World S
  unlock (err e) repository lock_id force w = (err e, w)
  unlock (ok identity) (err e) lock_id force w = (err e, w)
  unlock (ok identity) (ok repository_id) lock_id force w =
      let (r, w') = in_transaction (load_owner lock_id repository_id) w in
      removed lock_id repository_id force identity r w'

  -- `list_locks`
  pub list_locks :
      Result Identity ApiError
      → Result ℕ ApiError
      → LockListQuery
      → World S
      → Result (List Lock × Option ℕ) ApiError × World S
  list_locks (err e) repository query w = (err e, w)
  list_locks (ok identity) (err e) query w = (err e, w)
  list_locks (ok identity) (ok repository_id) query w =
      answer to_api (in_transaction (load_locks_page repository_id query) w)

  -- `verify_locks`: the locks of a page that are the caller's, and the others.
  pub verify_locks :
      Result Identity ApiError
      → Result ℕ ApiError
      → Option ℕ
      → Option ℕ
      → World S
      → Result (List Lock × List Lock × Option ℕ) ApiError × World S
  verify_locks (err e) repository cursor limit w = (err e, w)
  verify_locks (ok identity) (err e) cursor limit w = (err e, w)
  verify_locks (ok identity) (ok repository_id) cursor limit w =
      let (r, w') = in_transaction (load_locks_page repository_id query) w in
      (map_page (map_err to_api r), w')
    where
      query : LockListQuery
      query = record { path = none; id = none; cursor = cursor; limit = limit }

      map_page :
          Result (List Lock × Option ℕ) ApiError
          → Result (List Lock × List Lock × Option ℕ) ApiError
      map_page (err e) = err e
      map_page (ok (locks, next)) = ok (
        keep (λ l. list_eq l.owner identity.subject) locks,
        keep (λ l. not (list_eq l.owner identity.subject)) locks,
        next,
      )
