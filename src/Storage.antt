-- ===== src/Storage.antt =====
-- crates/git-lfs-delta-storage/src/lib.rs: immutable chunks over an object store.
-- The `object_store` crate is the parameter `ObjectStore`: its operations over a state of its own.
-- A repository's id is a number; `uuid_text` is how the `uuid` crate prints it.
pub mod Integrity
pub mod Heads
pub mod Memory
mod Tests
use Prim.Native.String.{String}
use git_cdc.Common.{
  ℕ, Bool, true, false, List, ◌++◌, take, codes, Result, ok, err, list_eq, if◌then◌else◌,
}
use git_cdc.Core.Digest.{ChunkId}
use git_cdc.Core.Stream.{Hashes}

-- The errors of the crate that the code tells apart.
pub data ProviderError : Type 0 where
  not_found already_exists other : ProviderError

pub record ObjectStore : Type 1 where
  pub State : Type 0
  pub ObjectPath : Type 0
  pub path_from : List ℕ → ObjectPath
  pub put_create : ObjectPath → List ℕ → State → Result (Unit {0}) ProviderError × State
  pub put : ObjectPath → List ℕ → State → Result (Unit {0}) ProviderError × State
  pub get : ObjectPath → State → Result (List ℕ) ProviderError × State
  pub head : ObjectPath → State → Result (Unit {0}) ProviderError × State
  pub delete : ObjectPath → State → Result (Unit {0}) ProviderError × State

pub data StorageError : Type 0 where
  probe_mismatch : StorageError
  digest_mismatch : ChunkId → List ℕ → StorageError
  provider : ProviderError → StorageError

-- The crates that a store is built from.
pub record Backing : Type 1 where
  pub objects : ObjectStore
  pub hashes : Hashes
  pub hex_encode : List ℕ → List ℕ
  pub uuid_text : ℕ → List ℕ

module _ (b : Backing) where
  open b.objects use {State, ObjectPath, path_from, put_create, put, get, head, delete}

  unfoldable pub verify_digest : ChunkId → List ℕ → Result (Unit {0}) StorageError
  verify_digest expected bytes =
      if list_eq (b.hashes.blake3 bytes) expected.bytes
      then ok tt
      else err (digest_mismatch expected (b.hex_encode (b.hashes.blake3 bytes)))

  -- `repositories/{repository_id}/chunks/{&digest[..2]}/{digest}`
  unfoldable pub chunk_path : ℕ → ChunkId → ObjectPath
  chunk_path repository_id chunk_id = path_from (
      codes "repositories/"
      ++ (b.uuid_text repository_id
          ++ (codes "/chunks/" ++ (take 2 digest ++ (codes "/" ++ digest)))))
    where
      digest : List ℕ
      digest = b.hex_encode chunk_id.bytes

  -- `Ok(_) | Err(AlreadyExists) => Ok(())`
  unfoldable pub put_result :
      Result (Unit {0}) ProviderError × State → Result (Unit {0}) StorageError × State
  put_result (ok _, s) = (ok tt, s)
  put_result (err already_exists, s) = (ok tt, s)
  put_result (err not_found, s) = (err (provider not_found), s)
  put_result (err other, s) = (err (provider other), s)

  unfoldable pub put_verified :
      ℕ → ChunkId → List ℕ → State → Result (Unit {0}) StorageError × State
  put_verified repository_id claimed_id bytes s = elim (verify_digest claimed_id bytes) [
    | err e ↦ (err e, s)
    | ok _ ↦ put_result (put_create (chunk_path repository_id claimed_id) bytes s)
  ]

  unfoldable pub get_result :
      ChunkId → Result (List ℕ) ProviderError × State → Result (List ℕ) StorageError × State
  get_result chunk_id (err e, s) = (err (provider e), s)
  get_result chunk_id (ok bytes, s) = elim (verify_digest chunk_id bytes) [
    | err e ↦ (err e, s)
    | ok _ ↦ (ok bytes, s)
  ]

  unfoldable pub get_verified : ℕ → ChunkId → State → Result (List ℕ) StorageError × State
  get_verified repository_id chunk_id s =
      get_result chunk_id (get (chunk_path repository_id chunk_id) s)

  unfoldable pub exists_result :
      Result (Unit {0}) ProviderError × State → Result Bool StorageError × State
  exists_result (ok _, s) = (ok true, s)
  exists_result (err not_found, s) = (ok false, s)
  exists_result (err already_exists, s) = (err (provider already_exists), s)
  exists_result (err other, s) = (err (provider other), s)

  unfoldable pub exists : ℕ → ChunkId → State → Result Bool StorageError × State
  exists repository_id chunk_id s = exists_result (head (chunk_path repository_id chunk_id) s)

  delete_result : Result (Unit {0}) ProviderError × State → Result (Unit {0}) StorageError × State
  delete_result (ok _, s) = (ok tt, s)
  delete_result (err not_found, s) = (ok tt, s)
  delete_result (err already_exists, s) = (err (provider already_exists), s)
  delete_result (err other, s) = (err (provider other), s)

  -- `delete`, which the crate's own `delete` is called by.
  pub delete_chunk : ℕ → ChunkId → State → Result (Unit {0}) StorageError × State
  delete_chunk repository_id chunk_id s =
      delete_result (delete (chunk_path repository_id chunk_id) s)

  -- The probe's three calls, each of them ending the check when it fails.
  pub healthcheck : ℕ → State → Result (Unit {0}) StorageError × State
  healthcheck probe s =
      let path = path_from (codes "_health/" ++ b.uuid_text probe) in
      let expected = codes "git-lfs-delta-ready" in
      let (stored, s1) = put path expected s in
      let (read, s2) = get path s1 in
      let (removed, s3) = delete path s2 in
      elim stored [
        | err e ↦ (err (provider e), s1)
        | ok _ ↦ elim read [
          | err e ↦ (err (provider e), s2)
          | ok actual ↦ elim removed [
            | err e ↦ (err (provider e), s3)
            | ok _ ↦ (if list_eq actual expected then ok tt else err probe_mismatch, s3)
          ]
        ]
      ]
