-- ===== src/Server/Locks/Unlocking.antt =====
-- Who removes a lock, and what else happens to the tables.
use git_cdc.Common.{
  ℕ, Bool, true, false, ◌≡◌, refl, ap, subst, ◌∙◌, List, [], ◌∷◌, some, ok, err, Result, arith, ◌⊎◌,
  inl, inr, list_eq_iff, Option-cases, Bool-cases, map_err, sym, not, ◌&&◌, ◌≢◌, nat_eq, nat_eq_iff,
  keep, keep-Without, Without, Any, All,
}
use git_cdc.Server.Error.{ApiError}
use git_cdc.Server.Schema.{Db, LfsLock}
use git_cdc.Server.Tx.{to_api}
use git_cdc.Server.World.{World, in_transaction}
use git_cdc.Server.World.Atomic.{in_transaction-Ended, in_transaction-ok}
use git_cdc.Server.Locks.{
  Identity, Lock, lock_of, owner_of, find_lock, remove_lock, delete_lock, load_owner, forbidden,
  removed, answer, unlock,
}

owner_of-find_lock :
    (lock_id repository_id : ℕ) (ls : List LfsLock) (l : LfsLock)
    → find_lock lock_id repository_id ls ≡ some l
    → owner_of lock_id repository_id ls ≡ some l.owner_subject
unfolding owner_of find_lock
owner_of-find_lock lock_id repository_id [] l e = absurd (cc)
owner_of-find_lock lock_id repository_id (x ∷ ls) l e =
    ground (arith, owner_of-find_lock lock_id repository_id ls l)

delete_lock-ok :
    (lock_id repository_id : ℕ) (db d : Db) (lock : Lock)
    → delete_lock lock_id repository_id db ≡ ok (lock, d)
    → (l : LfsLock) × (find_lock lock_id repository_id db.lfs_locks ≡ some l)
      × (lock ≡ lock_of l)
      × (d ≡ record db { lfs_locks = remove_lock lock_id repository_id db.lfs_locks })
unfolding delete_lock
delete_lock-ok lock_id repository_id db d lock e =
    elim (Option-cases (find_lock lock_id repository_id db.lfs_locks)) [
      | inl f ↦ absurd (ground (arith, f))
      | inr (l, f) ↦ (l, f, ground (arith, f), ground (arith, f))
    ]

load_owner-ok :
    (lock_id repository_id : ℕ) (db d : Db) (owner : List ℕ)
    → load_owner lock_id repository_id db ≡ ok (owner, d)
    → (owner_of lock_id repository_id db.lfs_locks ≡ some owner) × (d ≡ db)
unfolding load_owner
load_owner-ok lock_id repository_id db d owner e =
    elim (Option-cases (owner_of lock_id repository_id db.lfs_locks)) [
      | inl f ↦ absurd (ground (arith, f))
      | inr (l, f) ↦ (ground (arith, f), ground (arith, f))
    ]

delete_lock-found :
    (lock_id repository_id : ℕ) (db : Db) (l : LfsLock)
    → find_lock lock_id repository_id db.lfs_locks ≡ some l
    → delete_lock lock_id repository_id db
      ≡ ok (lock_of l, record db { lfs_locks = remove_lock lock_id repository_id db.lfs_locks })
unfolding delete_lock
delete_lock-found lock_id repository_id db l e = ground (arith, e)

load_owner-found :
    (lock_id repository_id : ℕ) (db : Db) (l : LfsLock)
    → find_lock lock_id repository_id db.lfs_locks ≡ some l
    → load_owner lock_id repository_id db ≡ ok (l.owner_subject, db)
unfolding load_owner
load_owner-found lock_id repository_id db l e =
    ground (arith, owner_of-find_lock lock_id repository_id db.lfs_locks l e)

-- The lock that a request names: `id` is its key.
abbrev pub IsLock : ℕ → ℕ → LfsLock → Type 0
IsLock lock_id repository_id l = (l.id ≡ lock_id) × (l.repository_id ≡ repository_id)

-- Of the tables, the locks alone have changed: the lock of the request is gone, and the others are
-- all there.
abbrev pub Removed : ℕ → ℕ → Db → Db → Type 0
Removed lock_id repository_id db d =
    (rest : List LfsLock) × (d ≡ record db { lfs_locks = rest })
    × Without (IsLock lock_id repository_id) db.lfs_locks rest

-- Who may remove the lock of an owner: the owner, and an administrator who uses force.
abbrev pub May : Identity → Bool → List ℕ → Type 0
May identity force owner =
    (owner ≡ identity.subject) ⊎ (force ≡ true) × (identity.administrator ≡ true)

remove_lock-keep :
    (lock_id repository_id : ℕ) (ls : List LfsLock)
    → remove_lock lock_id repository_id ls
      ≡ keep (λ (l : LfsLock). not (nat_eq l.id lock_id && nat_eq l.repository_id repository_id)) ls
unfolding remove_lock
remove_lock-keep lock_id repository_id [] = refl
remove_lock-keep lock_id repository_id (l ∷ ls) =
    ground (arith, remove_lock-keep lock_id repository_id ls)

remove_lock-Removed :
    (lock_id repository_id : ℕ) (db : Db)
    → Removed lock_id repository_id db
        (record db { lfs_locks = remove_lock lock_id repository_id db.lfs_locks })
remove_lock-Removed lock_id repository_id db = (
  remove_lock lock_id repository_id db.lfs_locks,
  refl,
  rw (remove_lock-keep lock_id repository_id db.lfs_locks) (
      keep-Without (IsLock lock_id repository_id) _ db.lfs_locks
        λ l. ground (arith, nat_eq_iff l.id lock_id, nat_eq_iff l.repository_id repository_id)),
)

find_lock-IsLock :
    (lock_id repository_id : ℕ) (ls : List LfsLock) (l : LfsLock)
    → find_lock lock_id repository_id ls ≡ some l
    → Any (λ x. x ≡ l) ls × IsLock lock_id repository_id l
unfolding find_lock
find_lock-IsLock lock_id repository_id [] l e = absurd (cc)
find_lock-IsLock lock_id repository_id (x ∷ ls) l e =
    ground (arith, find_lock-IsLock lock_id repository_id ls l)

-- No two locks have one `id`.
find_lock-only :
    (lock_id repository_id : ℕ) (ls : List LfsLock) (l : LfsLock)
    → Any (λ x. x ≡ l) ls
    → All (λ (x : LfsLock). (x.id ≢ lock_id) ⊎ (x ≡ l)) ls
    → IsLock lock_id repository_id l
    → find_lock lock_id repository_id ls ≡ some l
unfolding find_lock
find_lock-only lock_id repository_id [] l there only named = absurd there
find_lock-only lock_id repository_id (x ∷ ls) l there only named = elim only.0 [
  | inr same ↦ ground (arith, same, named)
  | inl other ↦ elim there [
    | inl same ↦ absurd (other (ap (λ (y : LfsLock). y.id) same ∙ named.0))
    | inr later ↦
        ground (arith, other, find_lock-only lock_id repository_id ls l later only.1 named)
  ]
]

-- What a request to unlock may do: nothing, if it fails; else it removes the lock that it answers
-- with, which is the caller's, or any for an administrator who forces it.
abbrev pub Unlocked :
    {S : Type 0} → Identity → ℕ → ℕ → Bool → S → Db → Result Lock ApiError × World S → Type 0
Unlocked identity repository_id lock_id force store db (r, w') =
    (w'.store ≡ store)
    × (((e : ApiError) × (r ≡ err e) × (w'.db ≡ db))
        ⊎ ((l : LfsLock) × (r ≡ ok (lock_of l))
            × Any (λ x. x ≡ l) db.lfs_locks
            × IsLock lock_id repository_id l
            × May identity force l.owner_subject
            × Removed lock_id repository_id db w'.db))

allowed :
    (owner : List ℕ) (force : Bool) (identity : Identity)
    → forbidden owner force identity ≡ false
    → May identity force owner
unfolding forbidden
allowed owner force identity h = ground (arith, list_eq_iff owner identity.subject)

not_forbidden :
    (owner : List ℕ) (force : Bool) (identity : Identity)
    → May identity force owner
    → forbidden owner force identity ≡ false
unfolding forbidden
not_forbidden owner force identity h = ground (arith, list_eq_iff owner identity.subject)

module _ {S : Type 0} (identity : Identity) (repository_id lock_id : ℕ) (force : Bool) where
  deleted-Unlocked :
      (w : World S)
      → ((l : LfsLock)
          → find_lock lock_id repository_id w.db.lfs_locks ≡ some l
          → May identity force l.owner_subject)
      → Unlocked identity repository_id lock_id force w.store w.db
          (answer to_api (in_transaction (delete_lock lock_id repository_id) w))
  deleted-Unlocked w may =
      let (kept, how) = in_transaction-Ended (delete_lock lock_id repository_id) w in
      elim how [
        | inl (e, r, same) ↦ (kept, inl (to_api e, ap (map_err to_api) r, same))
        | inr (lock, r, done) ↦
            let (l, found, same, after) = delete_lock-ok lock_id repository_id w.db _ lock done in
            let (there, named) = find_lock-IsLock lock_id repository_id w.db.lfs_locks l found in
            (
              kept,
              inr (
                l,
                ap (map_err to_api) r ∙ ap ok same,
                there,
                named,
                may l found,
                subst (Removed lock_id repository_id w.db) (sym after)
                    (remove_lock-Removed lock_id repository_id w.db),
              ),
            )
      ]

  removed-Unlocked :
      (owner : List ℕ) (w : World S)
      → owner_of lock_id repository_id w.db.lfs_locks ≡ some owner
      → Unlocked identity repository_id lock_id force w.store w.db
          (removed lock_id repository_id force identity (ok owner) w)
  unfolding removed
  removed-Unlocked owner w own = elim (Bool-cases (forbidden owner force identity)) [
    | inl refused ↦ rw (refused, removed) (refl, inl (_, refl, refl))
    | inr may ↦
        rw (may, removed)
          (deleted-Unlocked w (λ l found.
            allowed l.owner_subject force identity
              (subst (λ o. forbidden o force identity ≡ false) (same l found) may)))
  ]
    where
      same :
          (l : LfsLock)
          → find_lock lock_id repository_id w.db.lfs_locks ≡ some l
          → owner ≡ l.owner_subject
      same l found = cc (owner_of-find_lock lock_id repository_id w.db.lfs_locks l found)

  -- An authenticated `unlock` either fails and changes no table, or removes exactly the lock that it
  -- answers with; then that lock is the caller's, or the caller is an administrator who uses force.
  -- It never touches the store.
  pub unlock-Unlocked :
      (w : World S)
      → Unlocked identity repository_id lock_id force w.store w.db
          (unlock (ok identity) (ok repository_id) lock_id force w)
  unfolding unlock removed
  unlock-Unlocked w =
      let (kept, how) = in_transaction-Ended (load_owner lock_id repository_id) w in
      elim how [
        | inl (e, r, same) ↦ rw (r, unlock) (kept, inl (to_api e, refl, same))
        | inr (owner, r, done) ↦
            let (own, same) = load_owner-ok lock_id repository_id w.db _ owner done in
            let v = (in_transaction (load_owner lock_id repository_id) w).1 in
            let all = removed-Unlocked owner v (rw same own) in
            rw (r, unlock)
              (subst
                (λ (d : Db).
                  Unlocked identity repository_id lock_id force w.store d
                    (removed lock_id repository_id force identity (ok owner) v))
                same
                (subst
                  (λ s.
                    Unlocked identity repository_id lock_id force s v.db
                      (removed lock_id repository_id force identity (ok owner) v))
                  kept all))
      ]

  -- Without a connection failure, `unlock` of a lock that is there, the only one with its `id`, by its
  -- owner or by an administrator who uses force, succeeds and answers with the lock; that lock is
  -- gone from the tables, and nothing else has changed.
  pub unlock-ok :
      (w : World S) (l : LfsLock)
      → w.faults ≡ []
      → Any (λ x. x ≡ l) w.db.lfs_locks
      → All (λ (x : LfsLock). (x.id ≢ lock_id) ⊎ (x ≡ l)) w.db.lfs_locks
      → IsLock lock_id repository_id l
      → May identity force l.owner_subject
      → (d : Db) × (unlock (ok identity) (ok repository_id) lock_id force w
          ≡ (ok (lock_of l), record w { db = d }))
        × Removed lock_id repository_id w.db d
  unfolding unlock removed
  unlock-ok w l calm there only named may =
      let found = find_lock-only lock_id repository_id w.db.lfs_locks l there only named in
      let loaded =
        in_transaction-ok (load_owner lock_id repository_id) w l.owner_subject w.db calm
          (load_owner-found lock_id repository_id w.db l found) in
      (
        record w.db { lfs_locks = remove_lock lock_id repository_id w.db.lfs_locks },
        rw (
          loaded,
          unlock,
          removed,
          not_forbidden l.owner_subject force identity may,
          in_transaction-ok (delete_lock lock_id repository_id) w (lock_of l) _ calm
              (delete_lock-found lock_id repository_id w.db l found),
        ),
        remove_lock-Removed lock_id repository_id w.db,
      )
