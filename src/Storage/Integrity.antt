-- ===== src/Storage/Integrity.antt =====
-- What is read is what its name says, and what was stored can be read.
use git_cdc.Common.{
  ℕ, List, ◌≡◌, ◌≢◌, ◌↔◌, refl, ap, sym, ◌∙◌, subst, ◌⊎◌, inl, inr, Option, none, some, Result, ok,
  err, list_eq_iff, arith,
}
use git_cdc.Core.Digest.{ChunkId}
use git_cdc.Storage.{
  ObjectStore, ProviderError, not_found, already_exists, other, Backing, digest_mismatch, provider,
  verify_digest, chunk_path, put_result, put_verified, get_result, get_verified, delete_result,
  delete_chunk,
}

-- What the `object_store` crate documents: what a path holds, read by `get`, written once by
-- a conditional put.
pub record Lawful (o : ObjectStore) : Type 0 where
  pub holds : o.ObjectPath → o.State → Option (List ℕ)
  pub get_holds :
      (p : o.ObjectPath) (s : o.State) (bytes : List ℕ)
      → (o.get p s).0 ≡ ok bytes
      → holds p s ≡ some bytes
  pub get_finds :
      (p : o.ObjectPath) (s : o.State) → (o.get p s).0 ≡ err not_found → holds p s ≡ none
  pub create_writes :
      (p : o.ObjectPath) (bytes : List ℕ) (s : o.State)
      → (o.put_create p bytes s).0 ≡ ok tt
      → holds p (o.put_create p bytes s).1 ≡ some bytes
  pub create_keeps :
      (p : o.ObjectPath) (bytes : List ℕ) (s : o.State)
      → (o.put_create p bytes s).0 ≡ err already_exists
      → (old : List ℕ) × (holds p s ≡ some old) × (holds p (o.put_create p bytes s).1 ≡ some old)

module _ (b : Backing) where
  abbrev Digest : ChunkId → List ℕ → Type 0
  Digest id bytes = b.hashes.blake3 bytes ≡ id.bytes

  verify_digest-cases :
      (id : ChunkId) (bytes : List ℕ)
      → (Digest id bytes × (verify_digest b id bytes ≡ ok tt))
        ⊎ ((b.hashes.blake3 bytes ≢ id.bytes)
            × (verify_digest b id bytes
                ≡ err (digest_mismatch id (b.hex_encode (b.hashes.blake3 bytes)))))
  unfolding verify_digest
  verify_digest-cases id bytes = ground (arith, list_eq_iff (b.hashes.blake3 bytes) id.bytes)

  get_result_iff :
      (id : ChunkId) (r : Result (List ℕ) ProviderError) (s : b.objects.State) (bytes : List ℕ)
      → ((get_result b id (r, s)).0 ≡ ok bytes) ↔ ((r ≡ ok bytes) × Digest id bytes)
  unfolding get_result
  get_result_iff id (err e) s bytes = (λ h. absurd (cc), λ h. absurd (cc))
  get_result_iff id (ok x) s bytes = elim (verify_digest-cases id x) [
    | inl (same, e) ↦ rw (e, get_result) (λ h. (cc, cc), λ h. cc)
    | inr (differ, e) ↦ rw (e, get_result) (λ h. absurd (cc), λ h. absurd (differ (cc)))
  ]

  -- `get_verified` returns bytes exactly if the provider returns them and their BLAKE3 is the id.
  pub get_verified_iff :
      (repository_id : ℕ) (id : ChunkId) (s : b.objects.State) (bytes : List ℕ)
      → ((get_verified b repository_id id s).0 ≡ ok bytes) ↔ (
          ((b.objects.get (chunk_path b repository_id id) s).0 ≡ ok bytes)
          × (b.hashes.blake3 bytes ≡ id.bytes))
  unfolding get_verified
  get_verified_iff repository_id id s bytes =
      get_result_iff id (b.objects.get (chunk_path b repository_id id) s).0
        (b.objects.get (chunk_path b repository_id id) s).1 bytes

  -- Bytes that are stored have the BLAKE3 of their id.
  pub put_verified-blake3 :
      (repository_id : ℕ) (id : ChunkId) (bytes : List ℕ) (s : b.objects.State)
      → (put_verified b repository_id id bytes s).0 ≡ ok tt
      → b.hashes.blake3 bytes ≡ id.bytes
  unfolding put_verified
  put_verified-blake3 repository_id id bytes s h = elim (verify_digest-cases id bytes) [
    | inl (same, _) ↦ same
    | inr (_, e) ↦ absurd (cc (rw (e, put_verified) at h))
  ]

  -- The bytes are there for a reader: it gets them, or an error of the provider's.
  abbrev pub Readable : ℕ → ChunkId → List ℕ → b.objects.State → Type 0
  Readable repository_id id bytes s =
      ((get_verified b repository_id id s).0 ≡ ok bytes)
      ⊎ ((e : ProviderError) × (e ≢ not_found)
          × ((get_verified b repository_id id s).0 ≡ err (provider e)))

  get_result-Readable :
      (id : ChunkId) (r : Result (List ℕ) ProviderError) (s : b.objects.State) (bytes : List ℕ)
      → Digest id bytes
      → ((x : List ℕ) → r ≡ ok x → x ≡ bytes)
      → r ≢ err not_found
      → ((get_result b id (r, s)).0 ≡ ok bytes)
        ⊎ ((e : ProviderError) × (e ≢ not_found) × ((get_result b id (r, s)).0 ≡ err (provider e)))
  unfolding get_result
  get_result-Readable id (err e) s bytes d same here = inr (e, λ q. here (ap err q), refl)
  get_result-Readable id (ok x) s bytes d same here =
      inl ((get_result_iff id (ok x) s bytes).1 (ap ok (same x refl), d))

  module _ (lawful : Lawful b.objects) where
    holds-Readable :
        (repository_id : ℕ) (id : ChunkId) (bytes : List ℕ) (s : b.objects.State)
        → Digest id bytes
        → lawful.holds (chunk_path b repository_id id) s ≡ some bytes
        → Readable repository_id id bytes s
    unfolding get_verified
    holds-Readable repository_id id bytes s d h =
        get_result-Readable id (b.objects.get (chunk_path b repository_id id) s).0 _ bytes d
          (λ x e. cc (lawful.get_holds (chunk_path b repository_id id) s x e))
          (λ e. cc (lawful.get_finds (chunk_path b repository_id id) s e))

    put_result-holds :
        (repository_id : ℕ) (id : ChunkId) (bytes : List ℕ) (s : b.objects.State)
        (r : Result (Unit {0}) ProviderError)
        → ((old : List ℕ) → lawful.holds (chunk_path b repository_id id) s ≡ some old → old ≡ bytes)
        → (b.objects.put_create (chunk_path b repository_id id) bytes s).0 ≡ r
        → (put_result b (r, (b.objects.put_create (chunk_path b repository_id id) bytes s).1)).0
          ≡ ok tt
        → lawful.holds
            (chunk_path b repository_id id)
            (b.objects.put_create (chunk_path b repository_id id) bytes s).1
          ≡ some bytes
    unfolding put_result
    put_result-holds repository_id id bytes s (ok _) same e h =
        lawful.create_writes (chunk_path b repository_id id) bytes s e
    put_result-holds repository_id id bytes s (err already_exists) same e h =
        let (old, there, kept) = lawful.create_keeps (chunk_path b repository_id id) bytes s e in
        kept ∙ ap some (same old there)
    put_result-holds repository_id id bytes s (err not_found) same e h = absurd (cc)
    put_result-holds repository_id id bytes s (err other) same e h = absurd (cc)

    put_result-state :
        (r : Result (Unit {0}) ProviderError) (s : b.objects.State) → (put_result b (r, s)).1 ≡ s
    unfolding put_result
    put_result-state (ok _) s = refl
    put_result-state (err already_exists) s = refl
    put_result-state (err not_found) s = refl
    put_result-state (err other) s = refl

    put_verified-created :
        (repository_id : ℕ) (id : ChunkId) (bytes : List ℕ) (s : b.objects.State)
        → Digest id bytes
        → ((old : List ℕ) → lawful.holds (chunk_path b repository_id id) s ≡ some old → old ≡ bytes)
        → (put_result b (b.objects.put_create (chunk_path b repository_id id) bytes s)).0 ≡ ok tt
        → Readable repository_id id bytes
            (put_result b (b.objects.put_create (chunk_path b repository_id id) bytes s)).1
    put_verified-created repository_id id bytes s d same h =
        let created = b.objects.put_create (chunk_path b repository_id id) bytes s in
        subst (Readable repository_id id bytes) (sym (put_result-state created.0 created.1)) (
          holds-Readable repository_id id bytes created.1 d
            (put_result-holds repository_id id bytes s created.0 same refl h))

    -- Suppose the provider keeps its contract, what the chunk's path already holds has the chunk's
    -- BLAKE3, and no other bytes have the BLAKE3 of these. If `put_verified` succeeds, whether it
    -- wrote the object or found it there, then `get_verified` of the same chunk gives the same bytes
    -- or an error of the provider, which is not `NotFound`.
    pub put_verified-Readable :
        (repository_id : ℕ) (id : ChunkId) (bytes : List ℕ) (s : b.objects.State)
        → ((old : List ℕ)
            → lawful.holds (chunk_path b repository_id id) s ≡ some old
            → b.hashes.blake3 old ≡ id.bytes)
        → ((x : List ℕ) → b.hashes.blake3 x ≡ b.hashes.blake3 bytes → x ≡ bytes)
        → (put_verified b repository_id id bytes s).0 ≡ ok tt
        → Readable repository_id id bytes (put_verified b repository_id id bytes s).1
    unfolding put_verified put_result
    put_verified-Readable repository_id id bytes s honest one h =
        elim (verify_digest-cases id bytes) [
          | inl (d, e) ↦
              rw (e, put_verified)
                (put_verified-created repository_id id bytes s d
                  (λ old there. one old (honest old there ∙ sym d)) (rw (e, put_verified) at h))
          | inr (_, e) ↦ absurd (cc (rw (e, put_verified) at h))
        ]

  delete_result-state :
      (r : Result (Unit {0}) ProviderError) (s : b.objects.State) → (delete_result b (r, s)).1 ≡ s
  unfolding delete_result
  delete_result-state (ok _) s = refl
  delete_result-state (err not_found) s = refl
  delete_result-state (err already_exists) s = refl
  delete_result-state (err other) s = refl

  -- A deletion leaves the store as the provider does, and succeeds if the provider's does.
  pub delete_chunk-state :
      (repository_id : ℕ) (id : ChunkId) (s : b.objects.State)
      → (delete_chunk b repository_id id s).1
        ≡ (b.objects.delete (chunk_path b repository_id id) s).1
  unfolding delete_chunk
  delete_chunk-state repository_id id s =
      let gone = b.objects.delete (chunk_path b repository_id id) s in
      delete_result-state gone.0 gone.1

  pub delete_chunk-ok :
      (repository_id : ℕ) (id : ChunkId) (s s' : b.objects.State)
      → b.objects.delete (chunk_path b repository_id id) s ≡ (ok tt, s')
      → delete_chunk b repository_id id s ≡ (ok tt, s')
  unfolding delete_chunk delete_result
  delete_chunk-ok repository_id id s s' e = rw e
