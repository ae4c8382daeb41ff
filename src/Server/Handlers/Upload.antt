-- ===== src/Server/Handlers/Upload.antt =====
-- `begin_cdc`, `upload_cdc_chunk`, `register_and_store_chunk` and `finalize_cdc`
-- (crates/git-lfs-delta-server/src/lib.rs). The times are those of the handler's transactions.
pub mod Reading
pub mod Assembling
pub mod Storing
pub mod Planning
pub mod Finalizing
use git_cdc.Common.{
  ℕ, suc, ◌+◌, ◌%◌, ◌^◌, Bool, true, false, not, ◌==◌, List, [], ◌∷◌, ◌++◌, Option, none, some,
  get_elem?, length, nat_eq, ltb, list_eq, if◌then◌else◌, Result, ok, err, map_err,
}
use git_cdc.Core.Digest.{ObjectOid, object_oid_Eq}
use git_cdc.Core.Manifest.{ObjectManifest, ChunkDescriptor, validate}
use git_cdc.Protocol.Messages.{BeginUploadRequest, BeginUploadResponse}
use git_cdc.Storage.{StorageError, provider, not_found, exists, put_verified, get_verified}
use git_cdc.Server.Auth.Types.{write}
use git_cdc.Server.Error.{ApiError, Message, manifest_text, api_error, integrity, storage}
use git_cdc.Server.Handlers.Types.{Deployment, Request, Answer, admit, enter}
use git_cdc.Server.Lookup.{parse_oid, repository_id}
use git_cdc.Server.Publish.{publish_manifest}
use git_cdc.Server.Schema.{ObjectKey}
use git_cdc.Server.Service.{
  AppState, ServiceMetrics, Handler, pure, fail, ◌>>=◌, ◌>>◌, respond, require, ok_or, count,
  inspect, fetch_add, transaction, on_store, shutting_down,
}
use git_cdc.Server.Upload.{open_session, load_open_upload, load_finalizable_upload, register_chunk}

abbrev pub object_key : ℕ → ObjectOid → ObjectKey
object_key repository_id oid = record { repository_id = repository_id; oid = oid }

abbrev pub add_uploaded : ℕ → ServiceMetrics → ServiceMetrics
add_uploaded n m = record m { logical_uploaded = fetch_add n m.logical_uploaded }

abbrev pub add_received : ℕ → ServiceMetrics → ServiceMetrics
add_received n m = record m { chunks_received = fetch_add n m.chunks_received }

abbrev pub too_large : ApiError
too_large = api_error 422 "object is too large"

-- The error conversion of `finalize_cdc`.
unfoldable pub missing_conflicts : StorageError → ApiError
missing_conflicts (provider not_found) = api_error 409 "upload is missing chunks"
missing_conflicts e = storage e

module _ (d : Deployment) where
  -- The loop of `begin_cdc`, from the chunk with the given index.
  unfoldable pub missing_from : ℕ → ℕ → List ChunkDescriptor → Answer d (List ℕ)
  missing_from repository_id index [] = pure []
  missing_from repository_id index (c ∷ cs) = do
    found ← on_store storage (exists d.backing repository_id c.id)
    require (if found then true else ltb index (2 ^ 32))
        (api_error 422 "manifest has too many chunks")
    rest ← missing_from repository_id (suc index) cs
    pure (if found then rest else index ∷ rest)

  -- The loop of `finalize_cdc` and of `download_basic`: the bytes that the hasher is fed.
  unfoldable pub assemble : (StorageError → ApiError) → ℕ → List ChunkDescriptor → Answer d (List ℕ)
  assemble convert repository_id [] = pure []
  assemble convert repository_id (c ∷ cs) = do
    bytes ← on_store convert (get_verified d.backing repository_id c.id)
    require (nat_eq (length bytes) c.length) integrity
    rest ← assemble convert repository_id cs
    pure (bytes ++ rest)

  unfoldable pub register_and_store_chunk : ℕ → ℕ → ChunkDescriptor → List ℕ → Answer d (Unit {0})
  register_and_store_chunk repository_id upload_id descriptor bytes = do
    transaction (register_chunk repository_id upload_id descriptor)
    on_store storage (put_verified d.backing repository_id descriptor.id bytes)

  -- The stored manifest, whose chunks the loop goes through, is the request's: `open_session` has
  -- compared them.
  unfoldable pub begin_cdc :
      Request → ℕ → ℕ → List ℕ → BeginUploadRequest → Answer d BeginUploadResponse
  begin_cdc request now fresh oid body = do
    identity ← admit d request write
    parsed ← respond (parse_oid d.hex d.digest_text oid)
    require (nat_eq body.protocol_version 1) (api_error 400 "unsupported CDC protocol version")
    respond
        (map_err (λ e. record { status = 422; message = manifest_text e }) (validate body.manifest))
    require (body.manifest.object_oid == parsed)
        (api_error 422 "manifest OID does not match the requested object OID")
    id ← transaction (repository_id request.owner request.repository)
    session ← transaction (open_session too_large now fresh (object_key id parsed) body.manifest)
    missing ← missing_from id 0 body.manifest.chunks
    pure (record {
      protocol_version = 1;
      upload_id = session.id;
      missing_chunk_indexes = missing;
      expires_at = session.expires_at;
    })

  unfoldable pub upload_cdc_chunk : Request → ℕ → List ℕ → ℕ → ℕ → List ℕ → Answer d (Unit {0})
  upload_cdc_chunk request now oid upload_id index bytes = do
    closed ← inspect (λ s. s.data_requests_closed)
    require (not closed) shutting_down
    object ← enter d request write oid
    manifest ← transaction (load_open_upload now (object_key object.1 object.0) upload_id)
    descriptor ←
        ok_or (get_elem? manifest.chunks index)
          (api_error 404 "chunk index is outside the manifest")
    require (nat_eq (length bytes) descriptor.length) (api_error 422 "chunk length mismatch")
    register_and_store_chunk object.1 upload_id descriptor bytes
    count (add_received (length bytes))

  -- The rest of `finalize_cdc`, for a session that is not finalized yet.
  unfoldable pub finalize_open : ℕ → ℕ → ObjectOid → ℕ → ObjectManifest → Answer d (Unit {0})
  finalize_open now id oid upload_id manifest = do
    bytes ← assemble missing_conflicts id manifest.chunks
    require (list_eq (d.backing.hashes.sha256 bytes) oid.bytes)
        (api_error 422 "object SHA-256 mismatch")
    published ← transaction (publish_manifest now id upload_id manifest)
    if published then count (add_uploaded manifest.object_size) else pure tt

  unfoldable pub finalize_cdc : Request → ℕ → ℕ → List ℕ → ℕ → Answer d (Unit {0})
  finalize_cdc request now later oid upload_id = do
    closed ← inspect (λ s. s.data_requests_closed)
    require (not closed) shutting_down
    object ← enter d request write oid
    loaded ← transaction (load_finalizable_upload now (object_key object.1 object.0) upload_id)
    if loaded.1 then pure tt else finalize_open later object.1 object.0 upload_id loaded.0
