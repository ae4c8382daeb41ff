-- ===== src/Server/Publish/Links.antt =====
-- The loops of `publish_manifest` succeed over a manifest's chunks, and what they write.
use git_cdc.Common.{
  ℕ, suc, ◌+◌, ◌^◌, ◌≤◌, ◌<◌, true, false, ◌&&◌, ◌≡◌, refl, ap, ◌∙◌, List, [], ◌∷◌, some, All, any,
  ◌==◌, nat_eq, length, ok, arith, Option-cases, inl, inr, lt→ltb,
}
use git_cdc.Core.Manifest.{ChunkDescriptor}
use git_cdc.Server.Schema.{
  Db, ObjectKey, ChunkKey, ChunkRow, ObjectChunk, Object, chunk_key_Eq, object_key_Eq,
  chunk_key_eq_iff,
}
use git_cdc.Server.Tables.{repository_exists, find_object, has_chunk, find_chunk, add_reference}
use git_cdc.Server.Tables.Counts.{has_chunk-add_reference, has_chunk_cons, find_chunk-has_chunk}
use git_cdc.Server.Tx.{>>=-eq_of_ok}
use git_cdc.Server.Upload.{insert_chunk}
use git_cdc.Server.Publish.{
  chunk_key, ensure_chunk, ensure_chunks, insert_object_chunk, link_chunk, link_chunks,
}

abbrev pub link_of : ObjectKey → ℕ → ChunkDescriptor → ObjectChunk
link_of object ordinal d = record {
  object = object;
  ordinal = ordinal;
  chunk = chunk_key object.repository_id d;
  byte_offset = d.offset;
  byte_length = d.length;
}

-- The rows of `object_chunks` with a link for each chunk, numbered from the ordinal on.
abbrev pub links_of : ObjectKey → ℕ → List ChunkDescriptor → List ObjectChunk → List ObjectChunk
links_of object ordinal [] ls = ls
links_of object ordinal (d ∷ ds) ls =
    links_of object (suc ordinal) ds (link_of object ordinal d ∷ ls)

-- What the statements ask of a chunk's numbers, and that its row is there.
abbrev pub Fits : ChunkDescriptor → Type 0
Fits d = (d.offset < 2 ^ 63) × (0 < d.length) × (d.length < 2 ^ 31)

abbrev pub Present : ℕ → List ChunkRow → ChunkDescriptor → Type 0
Present repository_id cs d = has_chunk (chunk_key repository_id d) cs ≡ true

-- No link of the object has this ordinal.
abbrev pub Free : ObjectKey → List ObjectChunk → ℕ → Type 0
Free object ls k = any (λ (x : ObjectChunk). x.object == object && nat_eq x.ordinal k) ls ≡ false

abbrev linked : ObjectKey → ℕ → ChunkDescriptor → Db → Db
linked object ordinal d db = record db {
  object_chunks = link_of object ordinal d ∷ db.object_chunks;
  chunks = add_reference (chunk_key object.repository_id d) db.chunks;
}

insert_object_chunk-ok :
    (l : ObjectChunk) (db : Db) (o : Object)
    → 0 < l.byte_length
    → has_chunk l.chunk db.chunks ≡ true
    → Free l.object db.object_chunks l.ordinal
    → find_object l.object db.objects ≡ some o
    → insert_object_chunk l db ≡ ok (tt, record db { object_chunks = l ∷ db.object_chunks })
unfolding insert_object_chunk
insert_object_chunk-ok l db o f p free e = ground (arith, lt→ltb 0 l.byte_length f)

link_chunk-ok :
    (object : ObjectKey) (ordinal : ℕ) (d : ChunkDescriptor) (db : Db) (o : Object)
    → ordinal < 2 ^ 31
    → Fits d
    → Present object.repository_id db.chunks d
    → Free object db.object_chunks ordinal
    → find_object object db.objects ≡ some o
    → link_chunk object ordinal d db ≡ ok (tt, linked object ordinal d db)
unfolding link_chunk
link_chunk-ok object ordinal d db o b f p free e = ground (
  arith,
  lt→ltb ordinal (2 ^ 31) b,
  lt→ltb d.offset (2 ^ 63) f.0,
  lt→ltb d.length (2 ^ 31) f.2,
  insert_object_chunk-ok (link_of object ordinal d) db o f.1 p free e,
)

Present-add_reference :
    (repository_id : ℕ) (k : ChunkKey) (cs : List ChunkRow) (ds : List ChunkDescriptor)
    → All (Present repository_id cs) ds
    → All (Present repository_id (add_reference k cs)) ds
Present-add_reference repository_id k cs [] h = tt
Present-add_reference repository_id k cs (d ∷ ds) h = (
  has_chunk-add_reference (chunk_key repository_id d) k cs ∙ h.0,
  Present-add_reference repository_id k cs ds h.1,
)

-- The links are added in order, and only the counts of the chunks change besides.
pub link_chunks-ok :
    (object : ObjectKey) (ordinal : ℕ) (ds : List ChunkDescriptor) (db : Db) (o : Object)
    → ordinal + length ds ≤ 2 ^ 31
    → All Fits ds
    → All (Present object.repository_id db.chunks) ds
    → ((k : ℕ) → ordinal ≤ k → Free object db.object_chunks k)
    → find_object object db.objects ≡ some o
    → (d : Db) × (link_chunks object ordinal ds db ≡ ok (tt, d))
      × (d.objects ≡ db.objects)
      × (d.object_chunks ≡ links_of object ordinal ds db.object_chunks)
      × (d.upload_sessions ≡ db.upload_sessions)
unfolding link_chunks
link_chunks-ok object ordinal [] db o b f p free e = (db, refl, refl, refl, refl)
link_chunks-ok object ordinal (x ∷ ds) db o b f p free e =
    let (d, done, same_objects, links, sessions) =
      link_chunks-ok object (suc ordinal) ds (linked object ordinal x db) o (omega (arith, b)) f.1
        (Present-add_reference object.repository_id _ db.chunks ds p.1)
        (λ k h. ground (arith, free k)) e in
    (
      d,
      >>=-eq_of_ok (link_chunk object ordinal x) _ db tt (linked object ordinal x db) (
            link_chunk-ok object ordinal x db o (omega (arith, b)) f.0 p.0
              (free ordinal (omega arith)) e)
          ∙ done,
      same_objects,
      links,
      sessions,
    )

-- The tables differ in the chunk rows alone, and no row has gone.
abbrev pub MoreChunks : Db → Db → Type 0
MoreChunks db d =
    (d ≡ record db { chunks = d.chunks })
    × ((k : ChunkKey) → has_chunk k db.chunks ≡ true → has_chunk k d.chunks ≡ true)

ensure_chunk-ok :
    (k : ChunkKey) (size : ℕ) (db : Db)
    → 0 < size
    → repository_exists k.repository_id db ≡ true
    → (d : Db) × (ensure_chunk k size db ≡ ok (tt, d))
      × (has_chunk k d.chunks ≡ true)
      × MoreChunks db d
unfolding ensure_chunk insert_chunk
ensure_chunk-ok k size db h r = elim (Option-cases (find_chunk k db.chunks)) [
  | inl e ↦
      let new : ChunkRow = record { key = k; size = size; reference_count = 0 } in
      (
        record db { chunks = new ∷ db.chunks },
        rw (e, ensure_chunk, lt→ltb 0 size h, r) refl,
        rw (has_chunk_cons k new db.chunks, (chunk_key_eq_iff k k).1 refl) refl,
        (refl, λ j there. rw (has_chunk_cons j new db.chunks) (ground arith)),
      )
  | inr (c, e) ↦ (
    db,
    rw (e, ensure_chunk) refl,
    find_chunk-has_chunk k db.chunks c e,
    (refl, λ j there. there),
  )
]

MoreChunks-Present :
    (repository_id : ℕ) (db d : Db) (ds : List ChunkDescriptor)
    → MoreChunks db d
    → All (Present repository_id db.chunks) ds
    → All (Present repository_id d.chunks) ds
MoreChunks-Present repository_id db d [] m h = tt
MoreChunks-Present repository_id db d (x ∷ ds) m h =
    (m.1 (chunk_key repository_id x) h.0, MoreChunks-Present repository_id db d ds m h.1)

-- Every chunk has a row afterwards.
pub ensure_chunks-ok :
    (repository_id : ℕ) (ds : List ChunkDescriptor) (db : Db)
    → All Fits ds
    → repository_exists repository_id db ≡ true
    → (d : Db) × (ensure_chunks repository_id ds db ≡ ok (tt, d))
      × All (Present repository_id d.chunks) ds
      × MoreChunks db d
unfolding ensure_chunks
ensure_chunks-ok repository_id [] db f r = (db, refl, tt, (refl, λ j there. there))
ensure_chunks-ok repository_id (x ∷ ds) db f r =
    let k = chunk_key repository_id x in
    let (d, done, here, (only, more)) = ensure_chunk-ok k x.length db f.0.1 r in
    let (d', done', all_there, (only', more')) =
      ensure_chunks-ok repository_id ds d f.1 (rw only r) in
    (
      d',
      >>=-eq_of_ok (ensure_chunk k x.length) _ db tt d done ∙ done',
      (more' k here, all_there),
      (
        only' ∙ ap (λ (y : Db). record y { chunks = d'.chunks }) only,
        λ j there. more' j (more j there),
      ),
    )
