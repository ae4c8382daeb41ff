-- ===== src/Server/Handlers/Download.antt =====
-- `download_basic`, `download_cdc_manifest` and `download_cdc_chunk`
-- (crates/git-lfs-delta-server/src/lib.rs).
pub mod Reading
pub mod Serving
use git_cdc.Common.{
  ℕ, ◌+◌, Bool, true, false, not, ◌==◌, List, [], ◌∷◌, ◌++◌, Option, none, some, get_elem?, length,
  nat_eq, list_eq, if◌then◌else◌, Result, ok, err, map_err,
}
use git_cdc.Core.Digest.{ObjectOid}
use git_cdc.Core.Manifest.{ObjectManifest, ChunkDescriptor, validate}
use git_cdc.Storage.{get_verified}
use git_cdc.Server.Auth.Types.{read}
use git_cdc.Server.Error.{ApiError, api_error, integrity, storage}
use git_cdc.Server.Handlers.Types.{Deployment, Request, Answer, enter}
use git_cdc.Server.Handlers.Upload.{object_key}
use git_cdc.Server.Lookup.{load_manifest}
use git_cdc.Server.Service.{
  AppState, ServiceMetrics, pure, ◌>>=◌, ◌>>◌, respond, require, ok_or, count, inspect, fetch_add,
  transaction, on_store, file_operation, shutting_down,
}

-- A download's content length and body.
pub record Download : Type 0 where
  pub content_length : ℕ
  pub body : List ℕ

abbrev pub add_downloaded : ℕ → ServiceMetrics → ServiceMetrics
add_downloaded n m = record m { logical_downloaded = fetch_add n m.logical_downloaded }

module _ (d : Deployment) where
  -- The loop of `download_basic`: the chunks' bytes, each of them written to the staging file.
  unfoldable pub reconstruct : ℕ → List ChunkDescriptor → Answer d (List ℕ)
  reconstruct repository_id [] = pure []
  reconstruct repository_id (c ∷ cs) = do
    bytes ← on_store storage (get_verified d.backing repository_id c.id)
    require (nat_eq (length bytes) c.length) integrity
    file_operation
    rest ← reconstruct repository_id cs
    pure (bytes ++ rest)

  -- `create_dir_all` and `NamedTempFile::new_in` come before the loop, and `seek` after it.
  unfoldable pub stage_object : ObjectOid → ℕ → ObjectManifest → Answer d (List ℕ)
  stage_object oid repository_id manifest = do
    file_operation
    file_operation
    bytes ← reconstruct repository_id manifest.chunks
    require (list_eq (d.backing.hashes.sha256 bytes) oid.bytes) integrity
    file_operation
    pure bytes

  unfoldable pub download_basic : Request → List ℕ → Answer d Download
  download_basic request oid = do
    object ← enter d request read oid
    closed ← inspect (λ s. s.basic_transfers_closed)
    require (not closed) shutting_down
    manifest ← transaction (load_manifest (object_key object.1 object.0))
    respond (map_err (λ _. integrity) (validate manifest))
    bytes ← stage_object object.0 object.1 manifest
    count (add_downloaded manifest.object_size)
    pure (record { content_length = manifest.object_size; body = bytes })

  pub download_cdc_manifest : Request → List ℕ → Answer d ObjectManifest
  download_cdc_manifest request oid = do
    object ← enter d request read oid
    transaction (load_manifest (object_key object.1 object.0))

  pub download_cdc_chunk : Request → List ℕ → ℕ → Answer d (List ℕ)
  download_cdc_chunk request oid index = do
    closed ← inspect (λ s. s.data_requests_closed)
    require (not closed) shutting_down
    object ← enter d request read oid
    manifest ← transaction (load_manifest (object_key object.1 object.0))
    descriptor ←
        ok_or (get_elem? manifest.chunks index)
          (api_error 404 "chunk index is outside the manifest")
    bytes ← on_store storage (get_verified d.backing object.1 descriptor.id)
    require (nat_eq (length bytes) descriptor.length) integrity
    pure bytes
