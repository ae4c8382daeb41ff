-- ===== src/Server/Handlers/Basic.antt =====
-- `upload_basic` (crates/git-lfs-delta-server/src/lib.rs). The chunks are made twice from one
-- staging file: once for the manifest, and once to be stored, by a producer of its own.
pub mod Uploading
use git_cdc.Common.{
  ℕ, ◌+◌, Bool, true, false, not, ◌==◌, List, [], ◌∷◌, Option, none, some, take, length, ltb, leb,
  if◌then◌else◌, Result, ok, err, map_err,
}
use git_cdc.Core.Digest.{object_oid_Eq}
use git_cdc.Core.Manifest.{ObjectManifest, max_object_size}
use git_cdc.Core.Profile.{fast_cdc_v1}
use git_cdc.Core.Stream.{Item, Chunk, ChunkStream, CoreError, new, next_item, finish}
use git_cdc.Server.Auth.Types.{write}
use git_cdc.Server.Error.{ApiError, core_text, api_error, integrity, io}
use git_cdc.Server.Handlers.Types.{Deployment, Request, Answer, enter}
use git_cdc.Server.Handlers.Upload.{
  object_key, register_and_store_chunk, add_uploaded, add_received,
}
use git_cdc.Server.Publish.{publish_manifest}
use git_cdc.Server.Service.{
  AppState, Handler, pure, fail, ◌>>=◌, ◌>>◌, respond, require, count, inspect, transaction,
  file_operation, shutting_down,
}
use git_cdc.Server.Upload.{open_session}

-- A request's body: its bytes, and whether the connection fails after them.
pub record Body : Type 0 where
  pub bytes : List ℕ
  pub broken : Bool

abbrev pub too_long : ApiError
too_long = api_error 413 "object exceeds the 100 GiB production limit"

-- Does the content length, if there is one that is a number, exceed the limit?
unfoldable pub announces_too_long : Option ℕ → Bool
announces_too_long none = false
announces_too_long (some n) = ltb max_object_size n

-- `take` and `copy`: no more than a byte past the limit is read.
unfoldable pub copy_body : Body → Result (List ℕ) ApiError
copy_body body =
    if ltb max_object_size (length body.bytes)
    then err too_long
    else if body.broken
    then err io
    else ok body.bytes

abbrev pub unprocessable : CoreError → ApiError
unprocessable e = record { status = 422; message = core_text e }

module _ (d : Deployment) where
  -- `ensure_upload_session`
  unfoldable pub ensure_upload_session : ℕ → ℕ → ℕ → ObjectManifest → Answer d ℕ
  ensure_upload_session now fresh repository_id manifest = do
    session ←
        transaction
          (open_session integrity now fresh (object_key repository_id manifest.object_oid) manifest)
    pure session.id

  -- The producer's chunks, each of them stored as it comes; then the producer's own result.
  unfoldable pub store_chunks : ℕ → ℕ → List Item → ChunkStream → Answer d (Unit {0})
  store_chunks repository_id upload_id [] stream = pure tt
  store_chunks repository_id upload_id (item ∷ rest) stream =
      let (made, stream') = next_item d.backing.hashes item (record stream { inner = rest }) in
      let go_on : Answer d (Unit {0}) = store_chunks repository_id upload_id rest stream' in
      elim made [
        | err e ↦ fail (unprocessable e)
        | ok chunk ↦
            register_and_store_chunk d repository_id upload_id chunk.descriptor chunk.bytes >> go_on
      ]

  -- What is done with a staging file.
  unfoldable pub upload_staged : ℕ → ℕ → ℕ → ℕ → ObjectManifest → ChunkStream → Answer d (Unit {0})
  upload_staged now later fresh repository_id manifest stream = do
    upload_id ← ensure_upload_session now fresh repository_id manifest
    file_operation
    store_chunks repository_id upload_id stream.inner stream
    published ← transaction (publish_manifest later repository_id upload_id manifest)
    if published then count (add_uploaded manifest.object_size) else pure tt
    count (add_received manifest.object_size)

  -- `content_length` is the header's number, if there is one. The staging file's operations are, in
  -- order: its folder, the file, its second handle, the writes of the copy, the flush, a third handle.
  unfoldable pub upload_basic : Request → ℕ → ℕ → ℕ → List ℕ → Option ℕ → Body → Answer d (Unit {0})
  upload_basic request now later fresh oid content_length body = do
    object ← enter d request write oid
    require (not (announces_too_long content_length)) too_long
    closed ← inspect (λ s. s.basic_transfers_closed)
    require (not closed) shutting_down
    file_operation
    file_operation
    file_operation
    file_operation
    bytes ← respond (copy_body body)
    file_operation
    file_operation
    manifest ←
        respond
          (map_err unprocessable (finish d.backing.hashes (new d.cdc (d.staged bytes) fast_cdc_v1)))
    require (manifest.object_oid == object.0)
        (api_error 422 "uploaded bytes do not match the requested object OID")
    upload_staged now later fresh object.1 manifest (new d.cdc (d.staged bytes) fast_cdc_v1)
