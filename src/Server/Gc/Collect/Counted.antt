-- ===== src/Server/Gc/Collect/Counted.antt =====
-- Collecting an object keeps the reference counts right, and its count check never fails.
use git_cdc.Common.{
  subst, sym, Without, ℕ, ◌+◌, true, false, ◌≡◌, refl, ◌∙◌, List, [], ◌∷◌, none, some, All, arith,
  ok, Option-cases, inl, inr, ◌⊎◌,
}
use git_cdc.Server.Schema.{
  Db, ChunkKey, ObjectKey, ChunkRow, ObjectChunk, Tombstone, chunk_key_Eq, object_key_Eq,
}
use git_cdc.Server.Tables.{references, drop_reference, can_drop_reference}
use git_cdc.Server.Tables.Counts.{
  Counted, LinksInto, Counting, Counting-CountsOf, occurrences, Counting-drop_reference,
  Counting-can_drop_reference, LinksInto-drop_reference, references_nil, references_cons,
  occurrences_nil, occurrences_cons,
}
use git_cdc.Server.Tx.{>>=-eq_of_ok}
use git_cdc.Server.Gc.Collect.Deleted.{
  NoneDue, FirstDue, Deleted, next_due-NoneDue, next_due-FirstDue, delete_object-Deleted,
}
use git_cdc.Server.Gc.Collect.{
  chunks_of, remove_links, delete_object, enqueue_unreferenced, drop_chunk, drop_chunks,
  collect_object, collect_one, next_due,
}

-- The links that go are those of the object's chunks.
references-remove_links :
    (o : ObjectKey) (k : ChunkKey) (ls : List ObjectChunk)
    → references k (remove_links o ls) + occurrences k (chunks_of o ls) ≡ references k ls
unfolding remove_links chunks_of
references-remove_links o k [] = omega (arith, references_nil k, occurrences_nil k)
references-remove_links o k (l ∷ ls) = ground (
  arith,
  references_cons k l ls,
  references_cons k l (remove_links o ls),
  occurrences_cons k l.chunk (chunks_of o ls),
  references-remove_links o k ls,
)

Counting-remove_links :
    (o : ObjectKey) (ls : List ObjectChunk) (cs : List ChunkRow)
    → All (λ (c : ChunkRow). c.reference_count ≡ references c.key ls) cs
    → Counting (remove_links o ls) (chunks_of o ls) cs
Counting-remove_links o ls [] h = tt
Counting-remove_links o ls (c ∷ cs) h =
    (omega (arith, h.0, references-remove_links o c.key ls), Counting-remove_links o ls cs h.1)

LinksInto-remove_links :
    (o : ObjectKey) (cs : List ChunkRow) (ls : List ObjectChunk)
    → LinksInto cs ls
    → LinksInto cs (remove_links o ls)
unfolding remove_links
LinksInto-remove_links o cs [] h = tt
LinksInto-remove_links o cs (l ∷ ls) h = ground (arith, LinksInto-remove_links o cs ls h.1)

-- What the loop leaves alone.
abbrev pub SameObjects : Db → Db → Type 0
SameObjects db d =
    (d.objects ≡ db.objects)
    × (d.object_chunks ≡ db.object_chunks)
    × (d.object_tombstones ≡ db.object_tombstones)

enqueue_chunks :
    (now : ℕ) (k : ChunkKey) (db : Db)
    → ((enqueue_unreferenced now k db).chunks ≡ db.chunks)
      × SameObjects db (enqueue_unreferenced now k db)
unfolding enqueue_unreferenced
enqueue_chunks now k db = ground arith

-- The tables after one round.
abbrev dropped : ℕ → ChunkKey → Db → Db
dropped now k db = enqueue_unreferenced now k (record db { chunks = drop_reference k db.chunks })

drop_chunk-ok :
    (now : ℕ) (k : ChunkKey) (db : Db)
    → can_drop_reference k db.chunks ≡ true
    → drop_chunk now k db ≡ ok (tt, dropped now k db)
unfolding drop_chunk
drop_chunk-ok now k db h = rw h

-- The loop ends well: no count is dropped below zero.
drop_chunks-ok :
    (now : ℕ) (ks : List ChunkKey) (db : Db)
    → Counting db.object_chunks ks db.chunks
    → LinksInto db.chunks db.object_chunks
    → (d : Db) × (drop_chunks now ks db ≡ ok (tt, d)) × Counted d × SameObjects db d
unfolding drop_chunks
drop_chunks-ok now [] db h g = (
  db,
  refl,
  record { counts = Counting-CountsOf db.object_chunks db.chunks h; links = g },
  (refl, refl, refl),
)
drop_chunks-ok now (k ∷ ks) db h g =
    let (same_chunks, (a, same_links, b)) =
      enqueue_chunks now k (record db { chunks = drop_reference k db.chunks }) in
    let (d, e, v, (o, l, t)) =
      drop_chunks-ok now ks (dropped now k db)
        (rw (same_chunks, same_links) (Counting-drop_reference db.object_chunks k ks db.chunks h))
        (rw (same_chunks, same_links) (LinksInto-drop_reference k db.chunks db.object_chunks g)) in
    let can = Counting-can_drop_reference db.object_chunks k ks db.chunks h in
    (
      d,
      >>=-eq_of_ok (drop_chunk now k) _ db tt (dropped now k db) (drop_chunk-ok now k db can) ∙ e,
      v,
      (o ∙ a, l ∙ same_links, t ∙ b),
    )

-- Collecting an object from tables with right counts succeeds and leaves right counts: its links
-- and tombstone are gone with it.
pub collect_object-ok :
    (now : ℕ) (object : ObjectKey) (db : Db)
    → Counted db
    → (d : Db) × (collect_object now object db ≡ ok (tt, d))
      × Counted d
      × SameObjects (delete_object object db) d
unfolding collect_object delete_object
collect_object-ok now object db v =
    drop_chunks-ok now (chunks_of object db.object_chunks) (delete_object object db)
      (Counting-remove_links object db.object_chunks db.chunks v.counts)
      (LinksInto-remove_links object db.chunks db.object_chunks v.links)

-- How a round ends: nothing is due and nothing changes, or the first tombstone's object is deleted.
abbrev pub Outcome : ℕ → ℕ → Db → Type 0
Outcome now repository_id db =
    ((next_due now repository_id db.object_tombstones ≡ none)
      × (collect_one now repository_id db ≡ ok (false, db)))
    ⊎ ((t : Tombstone) × (d : Db) × (next_due now repository_id db.object_tombstones ≡ some t)
        × (collect_one now repository_id db ≡ ok (true, d))
        × Counted d
        × SameObjects (delete_object t.object db) d)

-- A round ends in one of the two ways.
pub collect_one-Outcome :
    (now repository_id : ℕ) (db : Db) → Counted db → Outcome now repository_id db
unfolding collect_one
collect_one-Outcome now repository_id db v =
    elim (Option-cases (next_due now repository_id db.object_tombstones)) [
      | inl e ↦ inl (e, rw (e, collect_one))
      | inr (t, e) ↦
          let (d, done, w, same) = collect_object-ok now t.object db v in
          inr (
            t,
            d,
            e,
            rw (e, collect_one) (>>=-eq_of_ok (collect_object now t.object) _ db tt d done),
            w,
            same,
          )
    ]

Deleted-same :
    (object : ObjectKey) (db e d : Db) → Deleted object db e → SameObjects e d → Deleted object db d
Deleted-same object db e d (o, l, t) (a, b, c) = (
  subst (Without _ db.objects) (sym a) o,
  subst (Without _ db.object_chunks) (sym b) l,
  subst (Without _ db.object_tombstones) (sym c) t,
)

-- What a round does, in terms of the tables before and after.
abbrev pub Round : ℕ → ℕ → Db → Type 0
Round now repository_id db =
    (NoneDue now repository_id db.object_tombstones
      × (collect_one now repository_id db ≡ ok (false, db)))
    ⊎ ((t : Tombstone) × (d : Db) × FirstDue now repository_id db.object_tombstones t
        × (collect_one now repository_id db ≡ ok (true, d))
        × Counted d
        × Deleted t.object db d)

-- Over right reference counts, the transaction of a collection round always succeeds, so the check
-- that a count is not negative never fails, and leaves right counts. Either no tombstone of the
-- repository is due, and then it answers `false` and changes nothing; or it answers `true`, and for
-- a tombstone that is due, and fell due no later than any other that is, the object's row, its chunk
-- links and its tombstones are gone, and all other objects, links and tombstones are there as they
-- were.
pub collect_one-total : (now repository_id : ℕ) (db : Db) → Counted db → Round now repository_id db
collect_one-total now repository_id db v = elim (collect_one-Outcome now repository_id db v) [
  | inl (e, done) ↦ inl (next_due-NoneDue now repository_id db.object_tombstones e, done)
  | inr (t, d, e, done, w, same) ↦ inr (
    t,
    d,
    next_due-FirstDue now repository_id db.object_tombstones t e,
    done,
    w,
    Deleted-same t.object db (delete_object t.object db) d (delete_object-Deleted t.object db) same,
  )
]
