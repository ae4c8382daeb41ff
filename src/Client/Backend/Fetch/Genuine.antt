-- ===== src/Client/Backend/Fetch/Genuine.antt =====
-- A chunk that is read or fetched is the one that was asked for.
use git_cdc.Common.{
  ℕ, ◌≡◌, true, List, Option, none, some, Result, ok, err, length, nat_eq_iff, list_eq_iff, arith,
  Bool-cases, inl, inr,
}
use git_cdc.Client.Backend.Types.{Platform}
use git_cdc.Client.Backend.Retry.{Outcome}
use git_cdc.Client.Backend.Fetch.{
  valid_chunk, chunk_cache_path, Fetched, saved, accept_download, after_download, fetch_from,
  fetch_chunk, after_removal, after_read, read_or_fetch_chunk,
}
use git_cdc.Client.Transfer.{TransferAction, BackendError}
use git_cdc.Core.Manifest.{ChunkDescriptor}

module _ (platform : Platform) where
  open platform use {State, blake3, read_file, remove_file, save_new}

  -- The bytes have the length and the BLAKE3 of the descriptor.
  abbrev pub IsChunk : ChunkDescriptor → List ℕ → Type 0
  IsChunk descriptor bytes =
      (length bytes ≡ descriptor.length) × (blake3 bytes ≡ descriptor.id.bytes)

  valid_chunk-IsChunk :
      (bytes : List ℕ) (descriptor : ChunkDescriptor)
      → valid_chunk platform bytes descriptor ≡ true
      → IsChunk descriptor bytes
  unfolding valid_chunk
  valid_chunk-IsChunk bytes descriptor h = (
    ground (arith, nat_eq_iff (length bytes) descriptor.length),
    ground (arith, list_eq_iff (blake3 bytes) descriptor.id.bytes),
  )

  module _ (descriptor : ChunkDescriptor) (path : List ℕ) where
    abbrev Genuine : Fetched platform → Type 0
    Genuine f = (bytes : List ℕ) → f.0 ≡ ok bytes → IsChunk descriptor bytes

    saved-Genuine :
        (x : List ℕ) (r : Result (Unit {0}) (List ℕ)) (s : State)
        → IsChunk descriptor x
        → Genuine (saved platform x (r, s))
    unfolding saved
    saved-Genuine x (err e) s c = λ bytes h. absurd (cc)
    saved-Genuine x (ok _) s c = λ bytes h. (cc, cc)

    accept_download-Genuine :
        (r : Result (List ℕ) (List ℕ)) (s : State)
        → Genuine (accept_download platform path descriptor r s)
    unfolding accept_download
    accept_download-Genuine (err e) s = λ bytes h. absurd (cc)
    accept_download-Genuine (ok x) s = elim (Bool-cases (valid_chunk platform x descriptor)) [
      | inl good ↦ rw good (
          saved-Genuine x (save_new path x s).0 (save_new path x s).1
            (valid_chunk-IsChunk x descriptor good))
      | inr bad ↦ rw bad (λ bytes h. absurd (cc))
    ]

    after_download-Genuine :
        (o : Outcome platform) → Genuine (after_download platform path descriptor o)
    unfolding after_download
    after_download-Genuine (err e, s) = λ bytes h. absurd (cc)
    after_download-Genuine (ok r, s) = accept_download-Genuine r.body s

    module _ (action : TransferAction) where
      fetch_from-Genuine :
          (u : Result platform.Url BackendError) (s : State)
          → Genuine (fetch_from platform action path descriptor u s)
      unfolding fetch_from
      fetch_from-Genuine (err e) s = λ bytes h. absurd (cc)
      fetch_from-Genuine (ok url) s = after_download-Genuine _

      fetch_chunk-Genuine :
          (index : ℕ) (s : State) → Genuine (fetch_chunk platform action index path descriptor s)
      unfolding fetch_chunk
      fetch_chunk-Genuine index s = fetch_from-Genuine _ s

      after_removal-Genuine :
          (index : ℕ) (r : Result (Unit {0}) (List ℕ)) (s : State)
          → Genuine (after_removal platform action index path descriptor (r, s))
      unfolding after_removal
      after_removal-Genuine index (err e) s = λ bytes h. absurd (cc)
      after_removal-Genuine index (ok _) s = fetch_chunk-Genuine index s

      after_read-Genuine :
          (index : ℕ) (o : Option (List ℕ)) (s : State)
          → Genuine (after_read platform action index path descriptor (o, s))
      unfolding after_read
      after_read-Genuine index none s = fetch_chunk-Genuine index s
      after_read-Genuine index (some x) s = elim (Bool-cases (valid_chunk platform x descriptor)) [
        | inl good ↦ let c = valid_chunk-IsChunk x descriptor good in rw good (λ bytes h. (cc, cc))
        | inr bad ↦
            rw bad (after_removal-Genuine index (remove_file path s).0 (remove_file path s).1)
      ]

  -- Whatever the cache, the file system and the server hold and answer, the bytes that
  -- `read_or_fetch_chunk` returns have the length and the BLAKE3 of the descriptor.
  pub read_or_fetch_chunk-IsChunk :
      (cache_root : List ℕ) (action : TransferAction) (index : ℕ) (descriptor : ChunkDescriptor)
      (s : State) (bytes : List ℕ)
      → (read_or_fetch_chunk platform cache_root action index descriptor s).0 ≡ ok bytes
      → IsChunk descriptor bytes
  unfolding read_or_fetch_chunk
  read_or_fetch_chunk-IsChunk cache_root action index descriptor s =
      let path = chunk_cache_path platform cache_root (platform.hex_encode descriptor.id.bytes) in
      after_read-Genuine descriptor path action index (read_file path s).0 (read_file path s).1
