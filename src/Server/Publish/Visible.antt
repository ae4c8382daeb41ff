-- ===== src/Server/Publish/Visible.antt =====
-- Publishing a valid manifest from an open session succeeds, and the object is there.
use git_cdc.Common.{
  ℕ, ◌+◌, ◌^◌, ◌<◌, true, ◌≡◌, refl, ap, ◌∙◌, List, [], ◌∷◌, none, some, All, nat_eq, ok, arith,
  lt→ltb,
}
use git_cdc.Core.Manifest.{ObjectManifest, ChunkDescriptor}
use git_cdc.Core.Manifest.Coverage.{IsValid, Covers, SizesWithin, Covers-le}
use git_cdc.Core.Profile.{ChunkingProfile, fast_cdc_v1, sizes}
use git_cdc.Server.Schema.{
  Db, ObjectKey, Object, UploadSession, finalized, object_key_Eq, object_key_eq_iff,
}
use git_cdc.Server.Tables.{repository_exists, find_object, update_sessions}
use git_cdc.Server.Publish.{
  insert_object, publish_open, finalize_session, ensure_chunks, link_chunks,
}
use git_cdc.Server.Publish.Links.{Fits, Free, links_of, link_chunks-ok, ensure_chunks-ok}

-- A chunk of a covered range is of numbers that the statements take.
covered-Fits :
    (minimum maximum start end : ℕ) (ds : List ChunkDescriptor)
    → Covers start ds end
    → SizesWithin minimum maximum ds
    → maximum < 2 ^ 31
    → end < 2 ^ 63
    → All Fits ds
covered-Fits minimum maximum start end [] h s a b = tt
covered-Fits minimum maximum start end (c ∷ []) h s a b = ((omega arith, s.0, omega arith), tt)
covered-Fits minimum maximum start end (c ∷ d ∷ ds) h s a b = (
  (
    omega (arith, Covers-le minimum maximum 0 (start + c.length) end (d ∷ ds) h.1),
    s.0,
    omega arith,
  ),
  covered-Fits minimum maximum (start + c.length) end (d ∷ ds) h.1 s.3 a b,
)

sizes_fit : (p : ChunkingProfile) → (sizes p).2 < 2 ^ 31
sizes_fit fast_cdc_v1 = omega arith

IsValid-Fits : (m : ObjectManifest) → IsValid m → All Fits m.chunks
IsValid-Fits m v =
    covered-Fits (sizes m.profile).0 (sizes m.profile).2 0 m.object_size m.chunks v.covered v.sized
      (sizes_fit m.profile) (omega (arith, v.object_fits))

abbrev row_of : ObjectKey → ObjectManifest → Object
row_of object m = record { key = object; size = m.object_size; manifest = some m }

insert_object-ok :
    (object : ObjectKey) (m : ObjectManifest) (db : Db)
    → find_object object db.objects ≡ none
    → repository_exists object.repository_id db ≡ true
    → insert_object object m db ≡ ok (true, record db { objects = row_of object m ∷ db.objects })
unfolding insert_object
insert_object-ok object m db e r = rw (e, insert_object, r)

find_object-row_of :
    (object : ObjectKey) (m : ObjectManifest) (os : List Object)
    → find_object object (row_of object m ∷ os) ≡ some (row_of object m)
unfolding find_object
find_object-row_of object m os = rw ((object_key_eq_iff object object).1 refl)

-- The object has its row and its links, in order, and the session is closed.
pub record Visible (object : ObjectKey) (upload_id : ℕ) (m : ObjectManifest) (db d : Db)
    : Type 0 where
  pub found : find_object object d.objects ≡ some (row_of object m)
  pub linked : d.object_chunks ≡ links_of object 0 m.chunks db.object_chunks
  pub closed : d.upload_sessions ≡ (finalize_session upload_id db).upload_sessions

publish_open-ok :
    (object : ObjectKey) (upload_id : ℕ) (m : ObjectManifest) (db d1 d2 d3 : Db)
    → ensure_chunks object.repository_id m.chunks db ≡ ok (tt, d1)
    → m.object_size < 2 ^ 63
    → insert_object object m d1 ≡ ok (true, d2)
    → link_chunks object 0 m.chunks d2 ≡ ok (tt, d3)
    → publish_open object upload_id m db ≡ ok (true, finalize_session upload_id d3)
unfolding publish_open
publish_open-ok object upload_id m db d1 d2 d3 e1 b e2 e3 =
    ground (arith, e1, e2, e3, lt→ltb m.object_size (2 ^ 63) b)

pub publish_open-Visible :
    (object : ObjectKey) (upload_id : ℕ) (m : ObjectManifest) (db : Db)
    → IsValid m
    → find_object object db.objects ≡ none
    → repository_exists object.repository_id db ≡ true
    → ((k : ℕ) → Free object db.object_chunks k)
    → (d : Db) × (publish_open object upload_id m db ≡ ok (true, d))
      × Visible object upload_id m db d
unfolding finalize_session
publish_open-Visible object upload_id m db v e r free =
    let (d1, done1, there, (only, more)) =
      ensure_chunks-ok object.repository_id m.chunks db (IsValid-Fits m v) r in
    let d2 : Db = record d1 { objects = row_of object m ∷ d1.objects } in
    let first = find_object-row_of object m d1.objects in
    let (d3, done3, objects, links, sessions) =
      link_chunks-ok object 0 m.chunks d2 (row_of object m) (omega (arith, v.chunks_fit))
        (IsValid-Fits m v) there (λ k _. rw only (free k)) first in
    (
      finalize_session upload_id d3,
      publish_open-ok object upload_id m db d1 d2 d3 done1 (omega (arith, v.object_fits))
          (insert_object-ok object m d1 (rw only e) (rw only r)) done3,
      record {
        found = ap (find_object object) objects ∙ first;
        linked = links ∙ ap (λ (y : Db). links_of object 0 m.chunks y.object_chunks) only;
        closed = ap close (sessions ∙ ap (λ (y : Db). y.upload_sessions) only);
      },
    )
  where
    close : List UploadSession → List UploadSession
    close sessions =
        update_sessions (λ s. nat_eq s.id upload_id) (λ s. record s { state = finalized }) sessions
