-- ===== src/Server/Gc/Queue/Safety.antt =====
-- Draining the queue never deletes the bytes of a chunk that an object refers to.
use git_cdc.Common.{
  ℕ, false, ◌≡◌, refl, ap, sym, ◌∙◌, subst, inl, inr, List, [], ◌∷◌, ◌==◌, arith, ok, err, Result,
  Option-cases, Result-cases,
}
use git_cdc.Storage.{Backing, StorageError, delete_chunk}
use git_cdc.Server.Schema.{
  Db, ChunkKey, ChunkRow, ObjectChunk, QueuedChunk, chunk_key_Eq, chunk_key_eq_iff,
}
use git_cdc.Server.Tables.{find_chunk, has_chunk, references}
use git_cdc.Server.Tables.Counts.{
  Counted, CountsOf, LinksInto, find_chunk-references, has_chunk_cons, references_cons,
}
use git_cdc.Server.Tx.{select, Tx, TxError, Commits, Commits-eq}
use git_cdc.Server.World.{in_transaction}
use git_cdc.Server.World.Atomic.{in_transaction-Ended}
use git_cdc.Server.Gc.Queue.{
  Verdict, gone, referenced, active, free, judge, settle, examine, dequeue, remove_chunk,
  forget_chunk, GcWorld, reclaimed, judged, drain_one, drain_all, queued_of, drain_chunk_queue,
}

CountsOf-remove_chunk :
    (ls : List ObjectChunk) (k : ChunkKey) (cs : List ChunkRow)
    → CountsOf ls cs
    → CountsOf ls (remove_chunk k cs)
unfolding remove_chunk
CountsOf-remove_chunk ls k [] h = tt
CountsOf-remove_chunk ls k (c ∷ cs) h = ground (arith, CountsOf-remove_chunk ls k cs h.1)

has_chunk-remove_chunk :
    (j k : ChunkKey) (cs : List ChunkRow)
    → (j == k) ≡ false
    → has_chunk j (remove_chunk k cs) ≡ has_chunk j cs
unfolding remove_chunk
has_chunk-remove_chunk j k [] h = refl
has_chunk-remove_chunk j k (c ∷ cs) h = ground (
  arith,
  chunk_key_eq_iff c.key k,
  chunk_key_eq_iff c.key j,
  chunk_key_eq_iff j k,
  has_chunk_cons j c cs,
  has_chunk_cons j c (remove_chunk k cs),
  has_chunk-remove_chunk j k cs h,
)

LinksInto-remove_chunk :
    (k : ChunkKey) (cs : List ChunkRow) (ls : List ObjectChunk)
    → references k ls ≡ 0
    → LinksInto cs ls
    → LinksInto (remove_chunk k cs) ls
LinksInto-remove_chunk k cs [] z h = tt
LinksInto-remove_chunk k cs (l ∷ ls) z h = ground (
  arith,
  references_cons k l ls,
  chunk_key_eq_iff k l.chunk,
  chunk_key_eq_iff l.chunk k,
  has_chunk-remove_chunk l.chunk k cs,
  LinksInto-remove_chunk k cs ls,
)

-- What a round may do to the tables: the counts stay right and the links are the same.
abbrev pub Sound : Db → Db → Type 0
Sound db d = Counted d × (d.object_chunks ≡ db.object_chunks)

forget_chunk-Sound :
    (k : ChunkKey) (db : Db) → Counted db → Commits (λ _ d. Sound db d) (forget_chunk k db)
unfolding forget_chunk dequeue
forget_chunk-Sound k db v = ground (
  arith,
  CountsOf-remove_chunk db.object_chunks k db.chunks v.counts,
  λ (z : references k db.object_chunks ≡ 0).
      LinksInto-remove_chunk k db.chunks db.object_chunks z v.links,
)

-- A chunk that is judged free is named by no link.
judge-free :
    (k : ChunkKey) (db : Db) → Counted db → judge k db ≡ free → references k db.object_chunks ≡ 0
unfolding judge
judge-free k db v e = elim (Option-cases (find_chunk k db.chunks)) [
  | inl none_there ↦ absurd (ground arith)
  | inr (c, found) ↦
      ground (arith, find_chunk-references db.object_chunks k db.chunks c v.counts found)
]

with_unit :
    (P : Unit {0} → Db → Type 0) (r : Result (Unit {0} × Db) TxError)
    → Commits P r
    → Commits (λ a d. P a d × Unit {0}) r
with_unit P (ok (a, d)) h = (h, tt)
with_unit P (err e) h = tt

abbrev Judged : ChunkKey → Db → Verdict → Db → Type 0
Judged k db verdict d = Sound db d × (verdict ≡ free → references k db.object_chunks ≡ 0)

examine-Judged : (k : ChunkKey) (db : Db) → Counted db → Commits (Judged k db) (examine k db)
unfolding examine settle dequeue
examine-Judged k db v = ground (arith, judge-free k db v)

module _ (b : Backing) (Q : b.objects.State → Type 0) where
  -- The provider's deletions of chunks that no link names keep `Q`.
  abbrev pub Survives : List ObjectChunk → Type 0
  Survives ls =
      (k : ChunkKey) (s : b.objects.State)
      → references k ls ≡ 0
      → Q s
      → Q (delete_chunk b k.repository_id k.chunk_id s).1

  -- Right counts, the links of `db`, and `Q` of the store.
  abbrev pub Safe : List ObjectChunk → GcWorld b → Type 0
  Safe ls w = Counted w.db × (w.db.object_chunks ≡ ls) × Q w.store

  -- A transaction whose body is sound keeps all that, and its result is as the body has it.
  pub Safe-in_transaction :
      {A : Type 0} (Z : A → Type 0) (ls : List ObjectChunk) (tx : Tx A) (w : GcWorld b)
      → Safe ls w
      → Commits (λ a d. Sound w.db d × Z a) (tx w.db)
      → let (r, w') = in_transaction tx w in Safe ls w' × ((a : A) → r ≡ ok a → Z a)
  Safe-in_transaction Z ls tx w (v, l, q) sound =
      let (kept, ended) = in_transaction-Ended tx w in
      elim ended [
        | inl (e, r, same) ↦ (
          (
            subst Counted (sym same) v,
            ap (λ (d : Db). d.object_chunks) same ∙ l,
            subst Q (sym kept) q,
          ),
          λ a f. cc,
        )
        | inr (a, r, done) ↦
            let ((c, links), z) = Commits-eq _ _ a _ sound done in
            ((c, links ∙ l, subst Q (sym kept) q), λ x f. subst Z (cc) z)
      ]

  reclaimed-Safe :
      (ls : List ObjectChunk) (k : ChunkKey) (r : Result (Unit {0}) StorageError × b.objects.State)
      (w : GcWorld b)
      → Counted w.db
      → w.db.object_chunks ≡ ls
      → Q r.1
      → Safe ls (reclaimed b k r w).1
  unfolding reclaimed
  reclaimed-Safe ls k (err e, s) w v l q = (v, l, q)
  reclaimed-Safe ls k (ok _, s) w v l q =
      (Safe-in_transaction (λ _. Unit {0}) ls (forget_chunk k) (record w { store = s }) (v, l, q)
        (with_unit _ _ (forget_chunk-Sound k w.db v))).0

  judged-Safe :
      (ls : List ObjectChunk) (k : ChunkKey) (r : Result Verdict TxError) (w : GcWorld b)
      → Survives ls
      → Safe ls w
      → (r ≡ ok free → references k ls ≡ 0)
      → Safe ls (judged b k r w).1
  unfolding judged
  judged-Safe ls k (err e) w h s z = s
  judged-Safe ls k (ok gone) w h s z = s
  judged-Safe ls k (ok referenced) w h s z = s
  judged-Safe ls k (ok active) w h s z = s
  judged-Safe ls k (ok free) w h (v, l, q) z = reclaimed-Safe ls k _ w v l (h k w.store (z refl) q)

  drain_one-Safe :
      (ls : List ObjectChunk) (k : ChunkKey) (w : GcWorld b)
      → Survives ls
      → Safe ls w
      → Safe ls (drain_one b k w).1
  unfolding drain_one
  drain_one-Safe ls k w h (v, l, q) =
      let (s, z) =
        Safe-in_transaction (λ x. x ≡ free → references k w.db.object_chunks ≡ 0) ls (examine k) w
          (v, l, q) (examine-Judged k w.db v) in
      judged-Safe ls k _ _ h s (λ f. subst (λ x. references k x ≡ 0) l (z free f refl))

  drain_all-Safe :
      (ls : List ObjectChunk) (qs : List QueuedChunk) (w : GcWorld b)
      → Survives ls
      → Safe ls w
      → Safe ls (drain_all b qs w).1
  unfolding drain_all
  drain_all-Safe ls [] w h s = s
  drain_all-Safe ls (q ∷ qs) w h s = elim (Result-cases (drain_one b q.chunk w).0) [
    | inl (_, e) ↦ rw (e, drain_all) (drain_all-Safe ls qs _ h (drain_one-Safe ls q.chunk w h s))
    | inr (x, e) ↦ rw (e, drain_all) (drain_one-Safe ls q.chunk w h s)
  ]

  -- Suppose the reference counts are right, and a property `Q` of the store is kept by deleting any
  -- chunk that no object's link names. Then draining the queue keeps `Q`, the counts and the links,
  -- whether it succeeds or not and whichever transactions fail: the only deletions it asks of the
  -- provider are of chunks that no object refers to.
  pub drain_chunk_queue-Safe :
      (repository_id : ℕ) (w : GcWorld b)
      → Survives w.db.object_chunks
      → Counted w.db
      → Q w.store
      → Safe w.db.object_chunks (drain_chunk_queue b repository_id w).1
  unfolding drain_chunk_queue
  drain_chunk_queue-Safe repository_id w h v q =
      let (s, _) =
        Safe-in_transaction (λ _. Unit {0}) w.db.object_chunks (select (queued_of repository_id)) w
          (v, refl, q) ((v, refl), tt) in
      elim (Result-cases (in_transaction (select (queued_of repository_id)) w).0) [
        | inl (queued, e) ↦ rw (e, drain_chunk_queue) (drain_all-Safe _ queued _ h s)
        | inr (x, e) ↦ rw (e, drain_chunk_queue) s
      ]
