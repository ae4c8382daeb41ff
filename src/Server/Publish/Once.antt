-- ===== src/Server/Publish/Once.antt =====
-- A manifest is published once: a second request finds the session finalized and writes nothing.
use git_cdc.Common.{
  ℕ, true, false, ◌&&◌, ◌≡◌, refl, ap, ◌∙◌, List, [], ◌∷◌, none, some, ◌==◌, nat_eq, ok, arith,
  Bool-cases, inl, inr,
}
use git_cdc.Core.Manifest.{ObjectManifest, validate}
use git_cdc.Core.Manifest.Coverage.{IsValid, validate_iff}
use git_cdc.Server.Schema.{Db, ObjectKey, UploadSession, finalized, object_key_Eq}
use git_cdc.Server.Tables.{
  repository_exists, find_object, find_session, update_sessions, is_open, is_finalized,
}
use git_cdc.Server.Upload.{is_finalizable}
use git_cdc.Server.Publish.{publish, publish_manifest, publish_open, finalize_session}
use git_cdc.Server.Publish.Links.{Free}
use git_cdc.Server.Publish.Visible.{Visible, publish_open-Visible}

abbrev closed : ℕ → List UploadSession → List UploadSession
closed upload_id ss =
    update_sessions (λ s. nat_eq s.id upload_id) (λ s. record s { state = finalized }) ss

-- The session that was found is found again, finalized.
find_session-closed :
    (now later upload_id : ℕ) (object : ObjectKey) (ss : List UploadSession) (s : UploadSession)
    → find_session (is_finalizable now object upload_id) ss ≡ some s
    → (s' : UploadSession) × (find_session
          (is_finalizable later object upload_id)
          (closed upload_id ss)
        ≡ some s')
      × (is_finalized s' ≡ true)
unfolding find_session is_finalizable update_sessions
find_session-closed now later upload_id object [] s e = absurd (cc)
find_session-closed now later upload_id object (x ∷ ss) s e =
    elim (Bool-cases (nat_eq x.id upload_id && x.object == object)) [
      | inl here ↦ (record x { state = finalized }, ground arith, refl)
      | inr away ↦
          let (s', again, f) = find_session-closed now later upload_id object ss s (ground arith) in
          (s', ground (arith, again), f)
    ]

-- An open session's row is not finalized.
open-finalized : (s : UploadSession) → is_open s ≡ true → is_finalized s ≡ false
open-finalized s h = ground arith

abbrev pub object_of : ℕ → ObjectManifest → ObjectKey
object_of repository_id m = record { repository_id = repository_id; oid = m.object_oid }

module _ (now repository_id upload_id : ℕ) (m : ObjectManifest) where
  publish_manifest-open :
      (db d : Db) (s : UploadSession)
      → validate m ≡ ok tt
      → find_session (is_finalizable now (object_of repository_id m) upload_id) db.upload_sessions
        ≡ some s
      → is_open s ≡ true
      → publish_open (object_of repository_id m) upload_id m db ≡ ok (true, d)
      → publish_manifest now repository_id upload_id m db ≡ ok (true, d)
  unfolding publish_manifest publish
  publish_manifest-open db d s v e o done = ground (arith, v, e, o, done, open-finalized s o)

  publish_manifest-finalized :
      (db : Db) (s : UploadSession)
      → validate m ≡ ok tt
      → find_session (is_finalizable now (object_of repository_id m) upload_id) db.upload_sessions
        ≡ some s
      → is_finalized s ≡ true
      → publish_manifest now repository_id upload_id m db ≡ ok (false, db)
  unfolding publish_manifest publish
  publish_manifest-finalized db s v e f = ground (arith, v, e, f)

-- The request publishes the object, and publishes it once.
abbrev pub Published : ℕ → ℕ → ℕ → ObjectManifest → Db → Type 0
Published now repository_id upload_id m db =
    (d : Db) × (publish_manifest now repository_id upload_id m db ≡ ok (true, d))
    × Visible (object_of repository_id m) upload_id m db d
    × ((later : ℕ) → publish_manifest later repository_id upload_id m d ≡ ok (false, d))

-- Suppose the manifest is valid, the session that its request names is open and has not expired, the
-- repository exists, and the object has neither a row nor links. Then `publish_manifest` succeeds: the object gets its
-- row, one link for each chunk in order, and the session is finalized. The same request made again,
-- at any time, succeeds without writing anything.
pub publish_manifest-Visible :
    (now repository_id upload_id : ℕ) (m : ObjectManifest) (db : Db) (s : UploadSession)
    → IsValid m
    → find_session (is_finalizable now (object_of repository_id m) upload_id) db.upload_sessions
      ≡ some s
    → is_open s ≡ true
    → repository_exists repository_id db ≡ true
    → find_object (object_of repository_id m) db.objects ≡ none
    → ((k : ℕ) → Free (object_of repository_id m) db.object_chunks k)
    → Published now repository_id upload_id m db
unfolding finalize_session
publish_manifest-Visible now repository_id upload_id m db s v e o r fresh free =
    let accepted = (validate_iff m).1 v in
    let (d, done, visible) =
      publish_open-Visible (object_of repository_id m) upload_id m db v fresh r free in
    (
      d,
      publish_manifest-open now repository_id upload_id m db d s accepted e o done,
      visible,
      λ later.
          let (s', again, f) =
            find_session-closed now later upload_id (object_of repository_id m) db.upload_sessions s
              e in
          publish_manifest-finalized later repository_id upload_id m d s' accepted
            (ap (find_session (is_finalizable later (object_of repository_id m) upload_id))
                visible.closed
              ∙ again)
            f,
    )
