-- ===== src/Client/Backend/Tests.antt =====
-- The theorems on crates/git-lfs-delta-client/src/backend.rs at a platform that answers from a list.
use git_cdc.Common.{
  ℕ, zero, suc, ◌<◌, ◌≡◌, refl, inl, inr, true, List, [], ◌∷◌, none, some, Result, ok, err, length,
  list_eq, codes, arith,
}
use git_cdc.Client.Backend.Types.{
  Platform, HttpRequest, put_method, Reply, responded, transport, retryable_status,
}
use git_cdc.Client.Backend.Retry.{Texts, child_url, patient_reply, send_patiently, send_strictly}
use git_cdc.Client.Backend.Retry.Decided.{Decided, retrying-Decided}
use git_cdc.Client.Backend.Window.{
  Window, opened, collect, flush, advance, find_pending, insert_pending, remove_pending,
}
use git_cdc.Client.Backend.Window.Ordered.{Occurs, arrivals_of, joined, collect-Ordered}
use git_cdc.Client.Backend.Fetch.{
  valid_chunk, saved, accept_download, after_download, fetch_from, fetch_chunk, after_removal,
  after_read, read_or_fetch_chunk,
}
use git_cdc.Client.Backend.Fetch.Genuine.{IsChunk, read_or_fetch_chunk-IsChunk}
use git_cdc.Client.Backend.Downloads.{
  required_action, manifest_of, check_manifest, keep_download, reconstruct_download,
  download_manifest, download_with, download,
}
use git_cdc.Client.Backend.Downloads.Whole.{Rebuilt, manifest_request, download-Rebuilt}
use git_cdc.Client.Transfer.{TransferAction, DownloadRequest, DownloadResult, BackendError}
use git_cdc.Core.Manifest.{ChunkDescriptor, ObjectManifest, v1, validate, check_chunks, check_chunk}
use git_cdc.Core.Profile.{fast_cdc_v1}

-- The replies that are still to come, the last of which is for ever.
abbrev replies : List Reply → Reply × List Reply
replies [] = (transport (codes "closed"), [])
replies (r ∷ rs) = (r, rs)

abbrev platform : Platform
platform = record {
  State = List Reply;
  Url = List ℕ;
  send = λ request s. replies s;
  sleep = λ delay s. s;
  url_of_href = λ href. href;
  parse_url = λ href. ok href;
  extend_segments = λ url children. some url;
  number_text = λ n. n ∷ [];
  uuid_text = λ n. n ∷ [];
  hex_encode = λ bytes. bytes;
  blake3 = λ bytes. length bytes ∷ bytes;
  sha256 = λ bytes. bytes;
  core_error_text = λ error. [];
  manifest_error_text = λ error. [];
  json_of_begin = λ begin. [];
  parse_plan = λ text. err text;
  parse_manifest = λ text. err text;
  open_file = λ path s. (ok [], s);
  new_temporary = λ s. (ok tt, s);
  keep_temporary = λ bytes s. (ok bytes, s);
  read_file = λ path s. (some (1 ∷ []), s);
  remove_file = λ path s. (ok tt, s);
  save_new = λ path bytes s. (ok tt, s);
}

abbrev answered : ℕ → List ℕ → Reply
answered status body = responded (record { status = status; retry_after = none; body = ok body })

abbrev busy_then_sent : List Reply
busy_then_sent = answered 503 [] ∷ answered 200 (7 ∷ 8 ∷ []) ∷ []

abbrev request : HttpRequest (List ℕ)
request = record { method = put_method; url = []; header = []; content = 7 ∷ [] }

abbrev texts : Texts
texts = record { refused = codes "refused"; broken = []; exhausted = codes "exhausted" }

retrying-Decided_example :
    Decided platform request 3 busy_then_sent
      (send_strictly platform texts request 3 0 busy_then_sent)
    × Decided platform request 3 busy_then_sent
        (send_patiently platform texts request 3 0 (codes "unknown") busy_then_sent)
retrying-Decided_example = retrying-Decided platform request texts (codes "unknown") busy_then_sent

abbrev action : TransferAction
action = record { href = codes "http://host/cdc"; header = [] }

abbrev descriptor : ChunkDescriptor
descriptor = record { id = record { bytes = 2 ∷ 7 ∷ 8 ∷ [] }; offset = 0; length = 2 }

-- The cache holds other bytes, and the server answers the second time.
fetched :
    (read_or_fetch_chunk platform (codes "cache") action 0 descriptor busy_then_sent).0
    ≡ ok (7 ∷ 8 ∷ [])
unfolding read_or_fetch_chunk after_read valid_chunk after_removal fetch_chunk fetch_from child_url
    send_patiently patient_reply retryable_status after_download accept_download saved list_eq
fetched = refl

read_or_fetch_chunk-IsChunk_example : IsChunk platform descriptor (7 ∷ 8 ∷ [])
read_or_fetch_chunk-IsChunk_example =
    read_or_fetch_chunk-IsChunk platform (codes "cache") action 0 descriptor busy_then_sent
      (7 ∷ 8 ∷ []) fetched

abbrev chunk_of : ℕ → List ℕ
chunk_of i = i ∷ i ∷ []

occurrences : (j : ℕ) → j < 3 → Occurs chunk_of 3 (λ written bytes. true) j (2 ∷ 0 ∷ 1 ∷ [])
occurrences zero h = inr (inl refl)
occurrences (suc zero) h = inr (inr (inl refl))
occurrences (suc (suc zero)) h = inl refl
occurrences (suc (suc (suc j))) h = absurd (omega arith)

collect-Ordered_example :
    (v : Window) × (collect 3
        (λ written bytes. true)
        (arrivals_of chunk_of 3 (λ written bytes. true) (2 ∷ 0 ∷ 1 ∷ []))
        (opened 3 2)
      ≡ ok v)
    × (v.written ≡ joined chunk_of 3 (λ written bytes. true) 3)
collect-Ordered_example =
    collect-Ordered chunk_of 3 (λ written bytes. true) 2 (2 ∷ 0 ∷ 1 ∷ []) (λ written bytes. refl)
      (omega arith, (omega arith, (omega arith, tt))) occurrences

abbrev manifest : ObjectManifest
manifest = record {
  version = v1;
  profile = fast_cdc_v1;
  object_oid = record { bytes = 5 ∷ 6 ∷ 7 ∷ [] };
  object_size = 3;
  chunks = record { id = record { bytes = 9 ∷ [] }; offset = 0; length = 3 } ∷ [];
}

abbrev server : Platform
server = record platform { parse_manifest = λ text. ok manifest }

abbrev download_request : DownloadRequest
download_request = record { oid = manifest.object_oid; size = 3; action = some action }

abbrev arrivals : List (ℕ × Result (List ℕ) BackendError)
arrivals = (0, ok (5 ∷ 6 ∷ 7 ∷ [])) ∷ []

abbrev manifest_sent : List Reply
manifest_sent = answered 200 [] ∷ []

abbrev whole : DownloadResult
whole = record { path = 5 ∷ 6 ∷ 7 ∷ []; bytes_transferred = 3 }

downloaded :
    (download server 2 (λ written bytes. true) arrivals download_request manifest_sent).0 ≡ ok whole
unfolding download download_with required_action manifest_of check_manifest download_manifest
    reconstruct_download keep_download collect opened flush advance find_pending insert_pending
    remove_pending validate check_chunks check_chunk git_cdc.Core.Digest.object_oid_eq list_eq
downloaded = refl

download-Rebuilt_example :
    (a : TransferAction) × (required_action download_request.action ≡ ok a)
    × ((m : ObjectManifest) × (manifest_of server
            (server.send (manifest_request server a) manifest_sent).0
          ≡ ok m)
        × Rebuilt server 2
            (λ written bytes. true)
            arrivals
            download_request
            m
            whole
            (server.send (manifest_request server a) manifest_sent).1)
download-Rebuilt_example =
    download-Rebuilt server 2 (λ written bytes. true) arrivals download_request manifest_sent whole
      downloaded
