-- ===== src/Server/Gc/Collect/Deleted.antt =====
-- Which object a collection round deletes, and what goes with it, without the code's own functions.
use git_cdc.Common.{
  ℕ, ◌≤◌, ◌≡◌, ◌⊎◌, inl, inr, refl, true, false, not, List, [], ◌∷◌, none, some, All, Any, Without,
  keep, keep-Without, ◌==◌, nat_eq_iff, arith, Option-cases, Bool-cases, leb, subst,
}
use git_cdc.Server.Schema.{
  Db, ObjectKey, Object, ObjectChunk, Tombstone, object_key_Eq, object_key_eq_iff,
}
use git_cdc.Server.Gc.Collect.{
  is_due, earlier, next_due, remove_links, remove_tombstones, delete_object,
}

-- The tombstone is of the repository, and its time has come.
abbrev pub IsDue : ℕ → ℕ → Tombstone → Type 0
IsDue now repository_id t = (t.object.repository_id ≡ repository_id) × (t.delete_after ≤ now)

abbrev pub NoneDue : ℕ → ℕ → List Tombstone → Type 0
NoneDue now repository_id ts = All (λ t. ¬ IsDue now repository_id t) ts

-- A tombstone that is due and fell due no later than any other that is.
abbrev pub FirstDue : ℕ → ℕ → List Tombstone → Tombstone → Type 0
FirstDue now repository_id ts t =
    Any (λ u. u ≡ t) ts
    × IsDue now repository_id t
    × All (λ (u : Tombstone). (¬ IsDue now repository_id u) ⊎ (t.delete_after ≤ u.delete_after)) ts

-- The object's row, its links and its tombstones are gone, and all others are there.
abbrev pub Deleted : ObjectKey → Db → Db → Type 0
Deleted object db d =
    Without (λ (o : Object). o.key ≡ object) db.objects d.objects
    × Without (λ (l : ObjectChunk). l.object ≡ object) db.object_chunks d.object_chunks
    × Without (λ (t : Tombstone). t.object ≡ object) db.object_tombstones d.object_tombstones

is_due-IsDue :
    (now repository_id : ℕ) (t : Tombstone)
    → is_due now repository_id t ≡ true
    → IsDue now repository_id t
is_due-IsDue now repository_id t h = ground (arith, nat_eq_iff t.object.repository_id repository_id)

is_due-false :
    (now repository_id : ℕ) (t : Tombstone)
    → is_due now repository_id t ≡ false
    → ¬ IsDue now repository_id t
is_due-false now repository_id t h due =
    ground (arith, nat_eq_iff t.object.repository_id repository_id)

pub next_due-NoneDue :
    (now repository_id : ℕ) (ts : List Tombstone)
    → next_due now repository_id ts ≡ none
    → NoneDue now repository_id ts
unfolding next_due
next_due-NoneDue now repository_id [] h = tt
next_due-NoneDue now repository_id (t ∷ ts) h = elim (Bool-cases (is_due now repository_id t)) [
  | inl due ↦ absurd (ground (arith, due))
  | inr not_yet ↦ (
    is_due-false now repository_id t not_yet,
    next_due-NoneDue now repository_id ts (rw not_yet at h),
  )
]

NoneDue-All :
    (now repository_id limit : ℕ) (ts : List Tombstone)
    → NoneDue now repository_id ts
    → All (λ (u : Tombstone). (¬ IsDue now repository_id u) ⊎ (limit ≤ u.delete_after)) ts
NoneDue-All now repository_id limit [] h = tt
NoneDue-All now repository_id limit (t ∷ ts) h =
    (inl h.0, NoneDue-All now repository_id limit ts h.1)

sooner :
    (now repository_id m n : ℕ) (ts : List Tombstone)
    → m ≤ n
    → All (λ (u : Tombstone). (¬ IsDue now repository_id u) ⊎ (n ≤ u.delete_after)) ts
    → All (λ (u : Tombstone). (¬ IsDue now repository_id u) ⊎ (m ≤ u.delete_after)) ts
sooner now repository_id m n [] b h = tt
sooner now repository_id m n (t ∷ ts) b (inl later, h) =
    (inl later, sooner now repository_id m n ts b h)
sooner now repository_id m n (t ∷ ts) b (inr e, h) =
    (inr (omega arith), sooner now repository_id m n ts b h)

pub next_due-FirstDue :
    (now repository_id : ℕ) (ts : List Tombstone) (t : Tombstone)
    → next_due now repository_id ts ≡ some t
    → FirstDue now repository_id ts t
unfolding next_due earlier
next_due-FirstDue now repository_id [] t h = absurd (cc)
next_due-FirstDue now repository_id (x ∷ ts) t h = elim (Bool-cases (is_due now repository_id x)) [
  | inr not_yet ↦
      let (there, due, first) = next_due-FirstDue now repository_id ts t (rw not_yet at h) in
      (inr there, due, (inl (is_due-false now repository_id x not_yet), first))
  | inl due ↦ elim (Option-cases (next_due now repository_id ts)) [
    | inl none_left ↦
        let same : x ≡ t = ground (arith, due, none_left) in
        subst (FirstDue now repository_id (x ∷ ts)) same (
          inl refl,
          is_due-IsDue now repository_id x due,
          (
            inr (omega arith),
            NoneDue-All now repository_id x.delete_after ts
                (next_due-NoneDue now repository_id ts none_left),
          ),
        )
    | inr (u, next) ↦
        let (there, is_due_too, first) = next_due-FirstDue now repository_id ts u next in
        elim (Bool-cases (leb x.delete_after u.delete_after)) [
          | inl before ↦
              let same : x ≡ t = ground (arith, due, next, before) in
              subst (FirstDue now repository_id (x ∷ ts)) same (
                inl refl,
                is_due-IsDue now repository_id x due,
                (
                  inr (omega arith),
                  sooner now repository_id x.delete_after u.delete_after ts (ground arith) first,
                ),
              )
          | inr after ↦
              let same : u ≡ t = ground (arith, due, next, after) in
              subst (FirstDue now repository_id (x ∷ ts)) same
                (inr there, is_due_too, (inr (ground arith), first))
        ]
  ]
]

remove_links-keep :
    (object : ObjectKey) (ls : List ObjectChunk)
    → remove_links object ls ≡ keep (λ (l : ObjectChunk). not (l.object == object)) ls
unfolding remove_links
remove_links-keep object [] = refl
remove_links-keep object (l ∷ ls) = ground (arith, remove_links-keep object ls)

remove_tombstones-keep :
    (object : ObjectKey) (ts : List Tombstone)
    → remove_tombstones object ts ≡ keep (λ (t : Tombstone). not (t.object == object)) ts
unfolding remove_tombstones
remove_tombstones-keep object [] = refl
remove_tombstones-keep object (t ∷ ts) = ground (arith, remove_tombstones-keep object ts)

pub delete_object-Deleted :
    (object : ObjectKey) (db : Db) → Deleted object db (delete_object object db)
unfolding delete_object
delete_object-Deleted object db = (
  keep-Without _ _ db.objects (λ o. ground (arith, object_key_eq_iff o.key object)),
  rw (remove_links-keep object db.object_chunks)
      (keep-Without _ _ db.object_chunks (λ l. ground (arith, object_key_eq_iff l.object object))),
  rw (remove_tombstones-keep object db.object_tombstones) (
      keep-Without _ _ db.object_tombstones
        (λ t. ground (arith, object_key_eq_iff t.object object))),
)
