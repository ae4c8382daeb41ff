-- ===== src/Server/Tables.antt =====
-- What the statements ask of the tables, and the constraints that the schema checks.
pub mod Counts
use git_cdc.Common.{
  ℕ, suc, ◌+◌, ◌-◌, Bool, true, false, not, ◌&&◌, List, [], ◌∷◌, Option, none, some, any, keep, map,
  ◌==◌, nat_eq, ltb, leb, if◌then◌else◌, ◌≡◌, refl, ◌↔◌, arith, inl, inr, Bool-cases,
}
use git_cdc.Server.Schema.{
  Db, ObjectKey, ChunkKey, Object, ChunkRow, ObjectChunk, SessionState, UploadSession, SessionChunk,
  QueuedChunk, open_state, finalized, expired, object_key_Eq, chunk_key_Eq,
}

abbrev pub repository_exists : ℕ → Db → Bool
repository_exists id db = any (λ r. nat_eq r.id id) db.repositories

unfoldable pub find_chunk : ChunkKey → List ChunkRow → Option ChunkRow
find_chunk k [] = none
find_chunk k (c ∷ cs) = if c.key == k then some c else find_chunk k cs

unfoldable pub has_chunk : ChunkKey → List ChunkRow → Bool
has_chunk k [] = false
has_chunk k (c ∷ cs) = if c.key == k then true else has_chunk k cs

unfoldable pub find_object : ObjectKey → List Object → Option Object
find_object k [] = none
find_object k (o ∷ os) = if o.key == k then some o else find_object k os

-- `UPDATE chunks SET reference_count = reference_count + 1`
unfoldable pub add_reference : ChunkKey → List ChunkRow → List ChunkRow
add_reference k [] = []
add_reference k (c ∷ cs) =
    (if c.key == k then record c { reference_count = c.reference_count + 1 } else c)
    ∷ add_reference k cs

-- `UPDATE chunks SET reference_count = reference_count - 1`: the check constraint wants the count
-- to be zero or more afterwards.
pub can_drop_reference : ChunkKey → List ChunkRow → Bool
can_drop_reference k [] = true
can_drop_reference k (c ∷ cs) =
    if c.key == k && nat_eq c.reference_count 0 then false else can_drop_reference k cs

pub drop_reference : ChunkKey → List ChunkRow → List ChunkRow
drop_reference k [] = []
drop_reference k (c ∷ cs) =
    (if c.key == k then record c { reference_count = c.reference_count - 1 } else c)
    ∷ drop_reference k cs

-- How many rows of `object_chunks` name the chunk.
unfoldable pub references : ChunkKey → List ObjectChunk → ℕ
references k [] = 0
references k (l ∷ ls) = if k == l.chunk then suc (references k ls) else references k ls

abbrev pub is_open : UploadSession → Bool
is_open s = elim s.state [ open_state ↦ true | _ ↦ false ]

abbrev pub is_finalized : UploadSession → Bool
is_finalized s = elim s.state [ finalized ↦ true | _ ↦ false ]

abbrev pub is_expired : UploadSession → Bool
is_expired s = elim s.state [ expired ↦ true | _ ↦ false ]

-- A row of `upload_sessions` that a query selects.
unfoldable pub find_session : (UploadSession → Bool) → List UploadSession → Option UploadSession
find_session p [] = none
find_session p (s ∷ ss) = if p s then some s else find_session p ss

-- `UPDATE upload_sessions SET ... WHERE ...`
unfoldable pub update_sessions :
    (UploadSession → Bool)
    → (UploadSession → UploadSession)
    → List UploadSession
    → List UploadSession
update_sessions p f [] = []
update_sessions p f (s ∷ ss) = (if p s then f s else s) ∷ update_sessions p f ss

-- Is the chunk named by a row of `upload_session_chunks`?
unfoldable pub session_names : ChunkKey → List SessionChunk → Bool
session_names k [] = false
session_names k (u ∷ us) = if u.chunk == k then true else session_names k us

pub is_queued : ChunkKey → List QueuedChunk → Bool
is_queued k [] = false
is_queued k (q ∷ qs) = if q.chunk == k then true else is_queued k qs
