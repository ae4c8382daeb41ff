-- ===== src/Client/Backend/Downloads.antt =====
-- `download` of crates/git-lfs-delta-client/src/backend.rs. What the worker threads do is the order in
-- which their results arrive, which is an argument; what they do to the state is in Fetch.
pub mod Whole
use git_cdc.Common.{
  ℕ, suc, ◌+◌, ◌^◌, Bool, true, false, not, ◌&&◌, ◌||◌, ◌==◌, List, [], ◌∷◌, ◌++◌, Option, none,
  some, Result, ok, err, ◌>>=◌, ◌>>◌, map_err, ok_or, refuse_if, any, length, nat_eq, ltb, leb,
  list_eq, codes, if◌then◌else◌,
}
use git_cdc.Client.Backend.Types.{
  Platform, HttpRequest, get_method, Response, Reply, responded, transport, failure,
}
use git_cdc.Client.Backend.Retry.{begin_upload, finalize_upload, upload_chunk_with_retry}
use git_cdc.Client.Backend.Window.{Window, opened, collect}
use git_cdc.Client.Transfer.{
  TransferAction, UploadRequest, DownloadRequest, DownloadResult, BackendError,
}
use git_cdc.Core.Digest.{object_oid_Eq}
use git_cdc.Core.Manifest.{ObjectManifest, ManifestError, validate}
use git_cdc.Core.Profile.{fast_cdc_v1}
use git_cdc.Core.Stream.{Cdc, Hashes, Item, Chunk, ChunkStream, CoreError, new, next_item, finish}
use git_cdc.Protocol.Messages.{BeginUploadRequest, BeginUploadResponse}

-- `action.ok_or_else(...)`
unfoldable pub required_action : Option TransferAction → Result TransferAction BackendError
required_action action =
    ok_or action (failure (codes "server did not provide a CDC transfer action"))

module _ (platform : Platform) where
  open platform use {
    State, send, url_of_href, parse_manifest, sha256, open_file, new_temporary, keep_temporary,
  }

  -- A manifest that the server has sent: `error_for_status`, `json`.
  unfoldable pub manifest_of : Reply → Result ObjectManifest BackendError
  manifest_of (transport error) = err (failure (codes "could not fetch CDC manifest: " ++ error))
  manifest_of (responded r) =
      if leb 400 r.status && ltb r.status 600
      then err (failure (codes "could not fetch CDC manifest: "))
      else map_err (λ error. failure (codes "invalid CDC manifest: " ++ error))
          (r.body >>= parse_manifest)

  unfoldable pub check_manifest :
      DownloadRequest → ObjectManifest → Result ObjectManifest BackendError
  check_manifest request m = do
    map_err
        (λ error. failure (codes "invalid CDC manifest: " ++ platform.manifest_error_text error))
        (validate m)
    refuse_if (not (m.object_oid == request.oid) || not (nat_eq m.object_size request.size))
        (failure (codes "server manifest does not match the requested Git LFS object"))
    ok m

  abbrev pub Downloaded : Type 0
  Downloaded = Result DownloadResult BackendError × State

  abbrev pub kept : DownloadRequest → Result (List ℕ) (List ℕ) × State → Downloaded
  kept request (err error, s) =
      (err (failure (codes "could not retain completed download: " ++ error)), s)
  kept request (ok path, s) = (ok (record { path = path; bytes_transferred = request.size }), s)

  -- After the section: the bytes' SHA-256, and the file.
  unfoldable pub keep_download : DownloadRequest → Result Window BackendError → State → Downloaded
  keep_download request (err e) s = (err e, s)
  keep_download request (ok w) s =
      if not (list_eq (sha256 w.written) request.oid.bytes)
      then (err (failure (codes "reconstructed download failed SHA-256 validation")), s)
      else kept request (keep_temporary w.written s)

  module _ (concurrency : ℕ) (accepts : List ℕ → List ℕ → Bool)
      (arrivals : List (ℕ × Result (List ℕ) BackendError)) where
    unfoldable pub reconstruct_download :
        DownloadRequest → ObjectManifest → Result (Unit {0}) (List ℕ) × State → Downloaded
    reconstruct_download request m (err error, s) = (err (failure error), s)
    reconstruct_download request m (ok _, s) =
        let total = length m.chunks in
        keep_download request (collect total accepts arrivals (opened total concurrency)) s

    unfoldable pub download_manifest :
        DownloadRequest → Result ObjectManifest BackendError → State → Downloaded
    download_manifest request (err e) s = (err e, s)
    download_manifest request (ok m) s = reconstruct_download request m (new_temporary s)

    unfoldable pub download_with :
        DownloadRequest → Result TransferAction BackendError → State → Downloaded
    download_with request (err e) s = (err e, s)
    download_with request (ok action) s =
        let (reply, s1) =
          send
            (record {
              method = get_method;
              url = url_of_href action.href;
              header = action.header;
              content = [];
            })
            s in
        download_manifest request (manifest_of reply >>= check_manifest request) s1

    unfoldable pub download : DownloadRequest → State → Downloaded
    download request s = download_with request (required_action request.action) s
