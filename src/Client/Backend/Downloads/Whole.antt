-- ===== src/Client/Backend/Downloads/Whole.antt =====
-- A download that succeeds has the object that was asked for.
use git_cdc.Common.{
  ℕ, ◌≡◌, refl, sym, Bool, true, false, not, [], ◌||◌, ◌==◌, List, Result, ok, err, ◌>>=◌, map_err,
  map_err-ok, refuse_if, refuse_if-ok, passed, passed_unit, length, nat_eq, nat_eq_iff, list_eq,
  list_eq_iff, arith, inl, inr, Bool-cases,
}
use git_cdc.Client.Backend.Downloads.{
  required_action, manifest_of, check_manifest, kept, keep_download, reconstruct_download,
  download_manifest, download_with, download,
}
use git_cdc.Client.Backend.Types.{Platform, Reply, HttpRequest, get_method}
use git_cdc.Client.Backend.Window.{Window, opened, collect}
use git_cdc.Client.Transfer.{TransferAction, DownloadRequest, DownloadResult, BackendError}
use git_cdc.Core.Digest.{object_oid_Eq, object_oid_eq_iff}
use git_cdc.Core.Manifest.{ObjectManifest, validate}
use git_cdc.Core.Manifest.Coverage.{IsValid, validate_iff}

-- The manifest is valid, and of the object that was asked for.
abbrev pub Matches : DownloadRequest → ObjectManifest → Type 0
Matches request m = IsValid m × (m.object_oid ≡ request.oid) × (m.object_size ≡ request.size)

neither_differs : (a b : Bool) → not a || not b ≡ false → (a ≡ true) × (b ≡ true)
neither_differs a b h = (ground arith, ground arith)

module _ (platform : Platform) where
  open platform use {State, send, url_of_href, sha256, new_temporary, keep_temporary}

  check_manifest-Matches :
      (request : DownloadRequest) (m n : ObjectManifest)
      → check_manifest platform request m ≡ ok n
      → (m ≡ n) × Matches request m
  unfolding check_manifest
  check_manifest-Matches request m n h =
      let (valid, rest) = passed_unit (map_err _ (validate m)) _ n h in
      let (fine, same) = passed_unit (refuse_if _ _) (ok m) n rest in
      let (oid, size) =
        neither_differs (m.object_oid == request.oid) (nat_eq m.object_size request.size)
          (refuse_if-ok _ _ fine) in
      (
        cc,
        (
          (validate_iff m).0 (map_err-ok _ (validate m) tt valid),
          (object_oid_eq_iff m.object_oid request.oid).0 oid,
          (nat_eq_iff m.object_size request.size).0 size,
        ),
      )

  -- The bytes that were put together have the object's SHA-256, and the file that is kept has them.
  abbrev pub Kept : DownloadRequest → DownloadResult → Window → State → Type 0
  Kept request r w s =
      (sha256 w.written ≡ request.oid.bytes)
      × (r.bytes_transferred ≡ request.size)
      × ((keep_temporary w.written s).0 ≡ ok r.path)

  kept-ok :
      (request : DownloadRequest) (x : Result (List ℕ) (List ℕ)) (s : State) (r : DownloadResult)
      → (kept platform request (x, s)).0 ≡ ok r
      → (x ≡ ok r.path) × (r.bytes_transferred ≡ request.size)
  kept-ok request (err e) s r h = absurd (cc)
  kept-ok request (ok path) s r h = (cc, cc)

  keep_download-Kept :
      (request : DownloadRequest) (x : Result Window BackendError) (s : State) (r : DownloadResult)
      → (keep_download platform request x s).0 ≡ ok r
      → (w : Window) × (x ≡ ok w) × Kept request r w s
  unfolding keep_download
  keep_download-Kept request (err e) s r h = absurd (cc)
  keep_download-Kept request (ok w) s r h =
      elim (Bool-cases (list_eq (sha256 w.written) request.oid.bytes)) [
        | inl same ↦
            let k =
              kept-ok request (keep_temporary w.written s).0 (keep_temporary w.written s).1 r
                (rw same at h) in
            (w, refl, ((list_eq_iff (sha256 w.written) request.oid.bytes).0 same, k.1, k.0))
        | inr other ↦ absurd (cc (rw other at h))
      ]

  abbrev pub manifest_request : TransferAction → HttpRequest platform.Url
  manifest_request action = record {
    method = get_method;
    url = url_of_href action.href;
    header = action.header;
    content = [];
  }

  module _ (concurrency : ℕ) (accepts : List ℕ → List ℕ → Bool)
      (arrivals : List (ℕ × Result (List ℕ) BackendError)) where
    abbrev pub Rebuilt : DownloadRequest → ObjectManifest → DownloadResult → State → Type 0
    Rebuilt request m r s =
        Matches request m
        × ((w : Window) × (collect (length m.chunks) accepts arrivals
                (opened (length m.chunks) concurrency)
              ≡ ok w)
            × Kept request r w (new_temporary s).1)

    reconstruct_download-Kept :
        (request : DownloadRequest) (m : ObjectManifest) (x : Result (Unit {0}) (List ℕ))
        (s : State) (r : DownloadResult)
        → (reconstruct_download platform concurrency accepts arrivals request m (x, s)).0 ≡ ok r
        → (w : Window) × (collect
              (length m.chunks)
              accepts
              arrivals
              (opened (length m.chunks) concurrency)
            ≡ ok w)
          × Kept request r w s
    unfolding reconstruct_download
    reconstruct_download-Kept request m (err e) s r h = absurd (cc)
    reconstruct_download-Kept request m (ok _) s r h =
        keep_download-Kept request
          (collect (length m.chunks) accepts arrivals (opened (length m.chunks) concurrency)) s r h

    download_manifest-Rebuilt :
        (request : DownloadRequest) (reply : Reply) (x : Result ObjectManifest BackendError)
        (s : State) (r : DownloadResult)
        → x ≡ (manifest_of platform reply >>= check_manifest platform request)
        → (download_manifest platform concurrency accepts arrivals request x s).0 ≡ ok r
        → (m : ObjectManifest) × (manifest_of platform reply ≡ ok m) × Rebuilt request m r s
    unfolding download_manifest
    download_manifest-Rebuilt request reply (err e) s r same h = absurd (cc)
    download_manifest-Rebuilt request reply (ok n) s r same h =
        let (m, sent, checked) =
          passed (manifest_of platform reply) (check_manifest platform request) n (sym same) in
        let (e, matches) = check_manifest-Matches request m n checked in
        (
          m,
          sent,
          (
            matches,
            reconstruct_download-Kept request m (new_temporary s).0 (new_temporary s).1 r
                (rw (sym e) at h),
          ),
        )

    download_with-Rebuilt :
        (request : DownloadRequest) (x : Result TransferAction BackendError) (s : State)
        (r : DownloadResult)
        → (download_with platform concurrency accepts arrivals request x s).0 ≡ ok r
        → (action : TransferAction) × (x ≡ ok action)
          × ((m : ObjectManifest) × (manifest_of platform (send (manifest_request action) s).0
                ≡ ok m)
              × Rebuilt request m r (send (manifest_request action) s).1)
    unfolding download_with
    download_with-Rebuilt request (err e) s r h = absurd (cc)
    download_with-Rebuilt request (ok action) s r h =
        let sent = send (manifest_request action) s in
        (
          action,
          refl,
          download_manifest-Rebuilt request sent.0
              (manifest_of platform sent.0 >>= check_manifest platform request) sent.1 r refl h,
        )

    -- Whatever the server answers and in whatever order the chunks arrive: when a download succeeds,
    -- the server's manifest is valid and has the object id and the size of the request, the chunks
    -- have been put together, the SHA-256 of what was written is the request's object id, the file
    -- kept under the result's path holds those bytes, and the size said is the request's.
    pub download-Rebuilt :
        (request : DownloadRequest) (s : State) (r : DownloadResult)
        → (download platform concurrency accepts arrivals request s).0 ≡ ok r
        → (action : TransferAction) × (required_action request.action ≡ ok action)
          × ((m : ObjectManifest) × (manifest_of platform (send (manifest_request action) s).0
                ≡ ok m)
              × Rebuilt request m r (send (manifest_request action) s).1)
    unfolding download
    download-Rebuilt request s r h =
        download_with-Rebuilt request (required_action request.action) s r h
