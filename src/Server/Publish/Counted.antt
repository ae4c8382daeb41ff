-- ===== src/Server/Publish/Counted.antt =====
-- Publishing keeps the reference counts right, however many chunks repeat.
use git_cdc.Common.{ℕ, suc, List, [], ◌∷◌, arith, Option-cases, inl, inr, Result-cases}
use git_cdc.Core.Manifest.{ObjectManifest, ChunkDescriptor, validate}
use git_cdc.Server.Schema.{Db, ChunkKey, ObjectKey, ObjectChunk}
use git_cdc.Server.Tables.{find_chunk, add_reference}
use git_cdc.Server.Tables.Counts.{
  Counted, CountsOf-add_reference, LinksInto-add_reference, has_chunk-add_reference,
}
use git_cdc.Server.Tx.{Commits, Keeps, Keeps->>, Keeps-pure, keeping, ◌>>◌, modify}
use git_cdc.Server.Upload.Counted.{insert_chunk-Counted}
use git_cdc.Server.Publish.{
  ensure_chunk, ensure_chunks, insert_object, insert_object_chunk, link_chunk, link_chunks,
  publish_open, publish, publish_manifest, finalize_session,
}

ensure_chunk-Counted : (k : ChunkKey) (size : ℕ) → Keeps Counted (ensure_chunk k size)
unfolding ensure_chunk
ensure_chunk-Counted k size = record {
  keeps = λ db v. elim (Option-cases (find_chunk k db.chunks)) [
    | inl e ↦ rw (e, ensure_chunk) (insert_chunk-Counted k size db e v)
    | inr (c, e) ↦ rw (e, ensure_chunk) v
  ];
}

ensure_chunks-Counted :
    (repository_id : ℕ) (ds : List ChunkDescriptor) → Keeps Counted (ensure_chunks repository_id ds)
unfolding ensure_chunks
ensure_chunks-Counted repository_id [] = Keeps-pure
ensure_chunks-Counted repository_id (d ∷ ds) =
    Keeps->> (ensure_chunk-Counted _ d.length) (ensure_chunks-Counted repository_id ds)

insert_object-Counted : (k : ObjectKey) (m : ObjectManifest) → Keeps Counted (insert_object k m)
unfolding insert_object
insert_object-Counted k m = record { keeps = λ db v. ground arith }

-- A link and its count, written one after the other.
count_link :
    (l : ObjectChunk)
    → Keeps Counted (
        insert_object_chunk l
        >> modify (λ db. record db { chunks = add_reference l.chunk db.chunks }))
unfolding insert_object_chunk
count_link l = record {
  keeps = λ db v. ground (
    arith,
    CountsOf-add_reference l db.object_chunks db.chunks v.counts,
    LinksInto-add_reference l.chunk db.chunks db.object_chunks v.links,
    has_chunk-add_reference l.chunk l.chunk db.chunks,
  );
}

link_chunk-Counted :
    (object : ObjectKey) (ordinal : ℕ) (d : ChunkDescriptor)
    → Keeps Counted (link_chunk object ordinal d)
unfolding link_chunk
link_chunk-Counted object ordinal d = search (keeping, count_link)

link_chunks-Counted :
    (object : ObjectKey) (ordinal : ℕ) (ds : List ChunkDescriptor)
    → Keeps Counted (link_chunks object ordinal ds)
unfolding link_chunks
link_chunks-Counted object ordinal [] = Keeps-pure
link_chunks-Counted object ordinal (d ∷ ds) =
    Keeps->> (link_chunk-Counted object ordinal d) (link_chunks-Counted object (suc ordinal) ds)

finalize_session-Counted : (upload_id : ℕ) → Keeps Counted (modify (finalize_session upload_id))
unfolding finalize_session
finalize_session-Counted upload_id = record { keeps = λ db v. ground arith }

publish_open-Counted :
    (object : ObjectKey) (upload_id : ℕ) (m : ObjectManifest)
    → Keeps Counted (publish_open object upload_id m)
unfolding publish_open
publish_open-Counted object upload_id m =
    search
      (
        keeping, ensure_chunks-Counted, insert_object-Counted, link_chunks-Counted,
        finalize_session-Counted,
      )
      depth 12

publish-Counted :
    (now repository_id upload_id : ℕ) (m : ObjectManifest)
    → Keeps Counted (publish now repository_id upload_id m)
unfolding publish
publish-Counted now repository_id upload_id m = search (keeping, publish_open-Counted) depth 12

-- Every chunk's reference count is the number of rows of `object_chunks` that name it, and each of
-- those rows names a chunk with a row: if that holds when `publish_manifest` begins, it holds of
-- the tables that it commits, for every manifest, one whose chunks repeat included.
pub publish_manifest-Counted :
    (now repository_id upload_id : ℕ) (m : ObjectManifest) (db : Db)
    → Counted db
    → Commits (λ _ d. Counted d) (publish_manifest now repository_id upload_id m db)
unfolding publish_manifest
publish_manifest-Counted now repository_id upload_id m db v = elim (Result-cases (validate m)) [
  | inl (_, e) ↦
      rw (e, publish_manifest) ((publish-Counted now repository_id upload_id m).keeps db v)
  | inr (x, e) ↦ rw (e, publish_manifest) tt
]
