-- ===== src/Server/Publish/Tests.antt =====
-- Publishing a small manifest from an open session.
use git_cdc.Server.Lookup.{load_manifest}
use git_cdc.Server.Lookup.RoundTrip.{load_manifest-publish_manifest}
use git_cdc.Common.{true, ℕ, ◌≡◌, refl, some, none, ok, list_eq, [], ◌∷◌}
use git_cdc.Core.Digest.{object_oid_eq}
use git_cdc.Core.Manifest.{validate, check_chunks, check_chunk}
use git_cdc.Core.Manifest.Coverage.{validate_iff}
use git_cdc.Server.Schema.{Db, open_state, object_key_eq}
use git_cdc.Server.Tables.{find_session, find_object}
use git_cdc.Server.Upload.{is_finalizable}
use git_cdc.Server.Publish.Links.{Free}
use git_cdc.Server.Publish.Once.{object_of, Published, publish_manifest-Visible}
use git_cdc.Server.Tables.Counts.{Counted}
use git_cdc.Server.Tx.{Commits}
use git_cdc.Server.Samples.{tables, tables-Counted, session, small}
use git_cdc.Server.Publish.{publish_manifest}
use git_cdc.Server.Publish.Counted.{publish_manifest-Counted}

abbrev uploading : Db
uploading = tables (session 70 open_state ∷ []) [] [] []

publish_manifest-Counted_example :
    Commits (λ _ d. Counted d) (publish_manifest 10 1 70 small uploading)
publish_manifest-Counted_example =
    publish_manifest-Counted 10 1 70 small uploading
      (tables-Counted (session 70 open_state ∷ []) [] [] [])

validate-small : validate small ≡ ok tt
unfolding validate check_chunks check_chunk
validate-small = refl

find_session-uploading :
    find_session (is_finalizable 10 (object_of 1 small) 70) uploading.upload_sessions
    ≡ some (session 70 open_state)
unfolding find_session is_finalizable object_key_eq object_oid_eq list_eq
find_session-uploading = refl

uploading-Free : (k : ℕ) → Free (object_of 1 small) uploading.object_chunks k
unfolding object_key_eq object_oid_eq list_eq
uploading-Free k = refl

find_object-uploading : find_object (object_of 1 small) uploading.objects ≡ none
unfolding find_object object_key_eq object_oid_eq list_eq
find_object-uploading = refl

publish_manifest-Visible_example : Published 10 1 70 small uploading
publish_manifest-Visible_example =
    publish_manifest-Visible 10 1 70 small uploading (session 70 open_state)
      ((validate_iff small).0 validate-small) find_session-uploading refl refl find_object-uploading
      uploading-Free

load_manifest-publish_manifest_example :
    (d : Db) × (publish_manifest 10 1 70 small uploading ≡ ok (true, d))
    × (load_manifest (object_of 1 small) d ≡ ok (small, d))
load_manifest-publish_manifest_example =
    load_manifest-publish_manifest 10 1 70 small uploading (session 70 open_state)
      ((validate_iff small).0 validate-small) find_session-uploading refl refl find_object-uploading
      uploading-Free
