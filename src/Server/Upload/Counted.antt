-- ===== src/Server/Upload/Counted.antt =====
-- The transactions of an upload keep the reference counts right.
use git_cdc.Common.{ℕ, ◌≡◌, ◌∷◌, none, arith, Option-cases, inl, inr}
use git_cdc.Core.Manifest.{ObjectManifest, ChunkDescriptor}
use git_cdc.Server.Error.{ApiError}
use git_cdc.Server.Schema.{Db, ChunkKey, ObjectKey, UploadSession}
use git_cdc.Server.Tables.{find_chunk, references}
use git_cdc.Server.Tables.Counts.{
  Counted, LinksInto, find_chunk-none, references_unlinked, LinksInto-cons,
}
use git_cdc.Server.Tx.{Commits, Commits->>=, Keeps, keeping, modify}
use git_cdc.Server.Upload.{
  insert_chunk, upsert_chunk, insert_session_chunk, register_chunk, expire_stale, insert_session,
  open_session,
}

-- A row for a chunk that had none starts at zero, which is right.
pub insert_chunk-Counted :
    (k : ChunkKey) (size : ℕ) (db : Db)
    → find_chunk k db.chunks ≡ none
    → Counted db
    → Commits (λ _ d. Counted d) (insert_chunk k size db)
unfolding insert_chunk
insert_chunk-Counted k size db e v = ground (arith, fresh, kept)
  where
    fresh : references k db.object_chunks ≡ 0
    fresh = references_unlinked k db.chunks db.object_chunks (find_chunk-none k db.chunks e) v.links

    kept :
        LinksInto
          (record { key = k; size = size; reference_count = 0 } ∷ db.chunks)
          db.object_chunks
    kept = LinksInto-cons _ db.chunks db.object_chunks v.links

pub upsert_chunk-Counted : (k : ChunkKey) (size : ℕ) → Keeps Counted (upsert_chunk k size)
unfolding upsert_chunk
upsert_chunk-Counted k size = record {
  keeps = λ db v. elim (Option-cases (find_chunk k db.chunks)) [
    | inl e ↦
        rw (e, upsert_chunk)
          (Commits->>= _ _ (insert_chunk k size) _ db (insert_chunk-Counted k size db e v)
            (λ _ d w. w))
    | inr (c, e) ↦ rw (e, upsert_chunk) v
  ];
}

insert_session_chunk-Counted :
    (session_id : ℕ) (k : ChunkKey) → Keeps Counted (insert_session_chunk session_id k)
unfolding insert_session_chunk
insert_session_chunk-Counted session_id k = record { keeps = λ db v. ground arith }

pub register_chunk-Counted :
    (repository_id upload_id : ℕ) (d : ChunkDescriptor)
    → Keeps Counted (register_chunk repository_id upload_id d)
unfolding register_chunk
register_chunk-Counted repository_id upload_id d =
    search (keeping, upsert_chunk-Counted, insert_session_chunk-Counted)

insert_session-Counted : (s : UploadSession) → Keeps Counted (insert_session s)
unfolding insert_session
insert_session-Counted s = record { keeps = λ db v. ground arith }

expire_stale-Counted :
    (now : ℕ) (object : ObjectKey) → Keeps Counted (modify (expire_stale now object))
unfolding expire_stale
expire_stale-Counted now object = record { keeps = λ db v. ground arith }

pub open_session-Counted :
    (too_large : ApiError) (now fresh : ℕ) (object : ObjectKey) (m : ObjectManifest)
    → Keeps Counted (open_session too_large now fresh object m)
unfolding open_session
open_session-Counted too_large now fresh object m =
    search (keeping, insert_session-Counted, expire_stale-Counted) depth 12
