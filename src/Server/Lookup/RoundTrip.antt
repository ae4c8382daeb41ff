-- ===== src/Server/Lookup/RoundTrip.antt =====
-- A manifest that has been published is the one that is loaded.
use git_cdc.Common.{ℕ, true, ◌≡◌, none, some, ok, arith}
use git_cdc.Core.Manifest.{ObjectManifest}
use git_cdc.Core.Manifest.Coverage.{IsValid}
use git_cdc.Server.Schema.{Db, ObjectKey, UploadSession}
use git_cdc.Server.Tables.{repository_exists, find_object, find_session, is_open}
use git_cdc.Server.Upload.{is_finalizable}
use git_cdc.Server.Publish.{publish_manifest}
use git_cdc.Server.Publish.Links.{Free}
use git_cdc.Server.Publish.Visible.{Visible}
use git_cdc.Server.Publish.Once.{object_of, publish_manifest-Visible}
use git_cdc.Server.Lookup.{load_manifest}

Visible-load_manifest :
    (object : ObjectKey) (upload_id : ℕ) (m : ObjectManifest) (db d : Db)
    → Visible object upload_id m db d
    → load_manifest object d ≡ ok (m, d)
unfolding load_manifest
Visible-load_manifest object upload_id m db d v = ground (arith, v.found)

-- If the manifest is valid, its session is open and has not expired, the repository exists, and the
-- object has neither a row nor links, then `publish_manifest` commits, and `load_manifest` of the
-- object then gives exactly the manifest that was published.
pub load_manifest-publish_manifest :
    (now repository_id upload_id : ℕ) (m : ObjectManifest) (db : Db) (s : UploadSession)
    → IsValid m
    → find_session (is_finalizable now (object_of repository_id m) upload_id) db.upload_sessions
      ≡ some s
    → is_open s ≡ true
    → repository_exists repository_id db ≡ true
    → find_object (object_of repository_id m) db.objects ≡ none
    → ((k : ℕ) → Free (object_of repository_id m) db.object_chunks k)
    → (d : Db) × (publish_manifest now repository_id upload_id m db ≡ ok (true, d))
      × (load_manifest (object_of repository_id m) d ≡ ok (m, d))
load_manifest-publish_manifest now repository_id upload_id m db s v e o r fresh free =
    let (d, done, visible, again) =
      publish_manifest-Visible now repository_id upload_id m db s v e o r fresh free in
    (d, done, Visible-load_manifest (object_of repository_id m) upload_id m db d visible)
