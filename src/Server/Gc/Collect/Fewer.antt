-- ===== src/Server/Gc/Collect/Fewer.antt =====
-- A round of `collect_due` that finds a tombstone leaves fewer of them.
use git_cdc.Common.{
  ℕ, ◌≤◌, ◌<◌, ◌≡◌, List, [], ◌∷◌, some, length, arith, Option-cases, ◌⊎◌, inl, inr,
}
use git_cdc.Server.Schema.{Db, ObjectKey, Tombstone, object_key_Eq, object_key_eq_iff}
use git_cdc.Server.Gc.Collect.{next_due, earlier, remove_tombstones, delete_object}

length-remove_tombstones :
    (o : ObjectKey) (ts : List Tombstone) → length (remove_tombstones o ts) ≤ length ts
unfolding remove_tombstones
length-remove_tombstones o [] = omega arith
length-remove_tombstones o (t ∷ ts) = ground (arith, length-remove_tombstones o ts)

-- The first of two tombstones that are due is one of them.
first_due :
    (now repository_id : ℕ) (x t : Tombstone) (ts : List Tombstone)
    → next_due now repository_id (x ∷ ts) ≡ some t
    → (x ≡ t) ⊎ (next_due now repository_id ts ≡ some t)
unfolding next_due earlier
first_due now repository_id x t ts e = elim (Option-cases (next_due now repository_id ts)) [
  | inl n ↦ ground (arith, n)
  | inr (u, n) ↦ ground (arith, n)
]

fewer_tombstones :
    (now repository_id : ℕ) (ts : List Tombstone) (t : Tombstone)
    → next_due now repository_id ts ≡ some t
    → length (remove_tombstones t.object ts) < length ts
unfolding remove_tombstones next_due
fewer_tombstones now repository_id [] t e = ground arith
fewer_tombstones now repository_id (x ∷ ts) t e = elim (first_due now repository_id x t ts e) [
  | inl same ↦
      ground
        (arith, same, object_key_eq_iff x.object t.object, length-remove_tombstones t.object ts)
  | inr later ↦ ground (arith, fewer_tombstones now repository_id ts t later)
]

pub delete_object-fewer :
    (now repository_id : ℕ) (db : Db) (t : Tombstone)
    → next_due now repository_id db.object_tombstones ≡ some t
    → length (delete_object t.object db).object_tombstones < length db.object_tombstones
unfolding delete_object
delete_object-fewer now repository_id db t e =
    fewer_tombstones now repository_id db.object_tombstones t e
