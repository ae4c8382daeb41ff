-- ===== src/Client/Backend/Fetch.antt =====
-- `read_or_fetch_chunk` and `valid_chunk` (crates/git-lfs-delta-client/src/backend.rs).
pub mod Genuine
use git_cdc.Common.{
  ℕ, Bool, true, false, ◌&&◌, List, [], ◌∷◌, ◌++◌, Option, none, some, Result, ok, err, length,
  take, nat_eq, list_eq, codes, if◌then◌else◌,
}
use git_cdc.Client.Backend.Types.{Platform, HttpRequest, get_method, Response, failure}
use git_cdc.Client.Backend.Retry.{Texts, Outcome, child_url, send_patiently}
use git_cdc.Client.Transfer.{TransferAction, BackendError}
use git_cdc.Core.Manifest.{ChunkDescriptor}

module _ (platform : Platform) where
  open platform use {State, Url, number_text, hex_encode, blake3, read_file, remove_file, save_new}

  unfoldable pub valid_chunk : List ℕ → ChunkDescriptor → Bool
  valid_chunk bytes descriptor =
      nat_eq (length bytes) descriptor.length && list_eq (blake3 bytes) descriptor.id.bytes

  -- `join` puts a slash between two paths.
  unfoldable pub chunk_cache_path : List ℕ → List ℕ → List ℕ
  chunk_cache_path cache_root digest =
      cache_root ++ (codes "/chunks/" ++ (take 2 digest ++ (codes "/" ++ digest)))

  abbrev fetch_texts : Texts
  fetch_texts = record {
    refused = codes "chunk download failed with HTTP ";
    broken = [];
    exhausted = codes "chunk download failed after retries: ";
  }

  abbrev pub Fetched : Type 0
  Fetched = Result (List ℕ) BackendError × State

  -- The temporary file that is persisted under the chunk's name, unless there is one already.
  unfoldable pub saved : List ℕ → Result (Unit {0}) (List ℕ) × State → Fetched
  saved bytes (err error, s) = (err (failure error), s)
  saved bytes (ok _, s) = (ok bytes, s)

  -- What becomes of the bytes that the server has sent.
  unfoldable pub accept_download :
      List ℕ → ChunkDescriptor → Result (List ℕ) (List ℕ) → State → Fetched
  accept_download path descriptor (err error) s =
      (err (failure (codes "could not read chunk response: " ++ error)), s)
  accept_download path descriptor (ok bytes) s =
      if valid_chunk bytes descriptor
      then saved bytes (save_new path bytes s)
      else (err (failure (codes "downloaded chunk failed length or BLAKE3 validation")), s)

  unfoldable pub after_download : List ℕ → ChunkDescriptor → Outcome platform → Fetched
  after_download path descriptor (err e, s) = (err e, s)
  after_download path descriptor (ok response, s) = accept_download path descriptor response.body s

  unfoldable pub fetch_from :
      TransferAction → List ℕ → ChunkDescriptor → Result Url BackendError → State → Fetched
  fetch_from action path descriptor (err e) s = (err e, s)
  fetch_from action path descriptor (ok url) s = after_download path descriptor (
      send_patiently platform fetch_texts
        (record { method = get_method; url = url; header = action.header; content = [] }) 3 0
        (codes "unknown transport failure") s)

  unfoldable pub fetch_chunk : TransferAction → ℕ → List ℕ → ChunkDescriptor → State → Fetched
  fetch_chunk action index path descriptor s =
      fetch_from action path descriptor
        (child_url platform action.href (codes "chunks" ∷ number_text index ∷ [])) s

  -- A cache entry that is not the chunk is removed before the chunk is fetched.
  unfoldable pub after_removal :
      TransferAction → ℕ → List ℕ → ChunkDescriptor → Result (Unit {0}) (List ℕ) × State → Fetched
  after_removal action index path descriptor (err error, s) =
      (err (failure (codes "could not remove corrupt cache entry: " ++ error)), s)
  after_removal action index path descriptor (ok _, s) = fetch_chunk action index path descriptor s

  unfoldable pub after_read :
      TransferAction → ℕ → List ℕ → ChunkDescriptor → Option (List ℕ) × State → Fetched
  after_read action index path descriptor (none, s) = fetch_chunk action index path descriptor s
  after_read action index path descriptor (some bytes, s) =
      if valid_chunk bytes descriptor
      then (ok bytes, s)
      else after_removal action index path descriptor (remove_file path s)

  unfoldable pub read_or_fetch_chunk :
      List ℕ → TransferAction → ℕ → ChunkDescriptor → State → Fetched
  read_or_fetch_chunk cache_root action index descriptor s =
      let path = chunk_cache_path cache_root (hex_encode descriptor.id.bytes) in
      after_read action index path descriptor (read_file path s)
