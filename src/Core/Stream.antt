-- ===== src/Core/Stream.antt =====
-- crates/git-lfs-delta-core/src/stream.rs: a reader cut into chunks, and the manifest it adds up to.
-- The `fastcdc` crate is the parameter `Cdc`: what its stream yields, item by item. SHA-256 and
-- BLAKE3 are the parameter `Hashes`; a hasher is the list of bytes that it has been fed.
pub mod Complete
pub mod Steps
pub mod Valid
mod Tests
use git_cdc.Common.{
  ℕ, ◌+◌, ◌%◌, List, [], ◌∷◌, ◌++◌, Option, none, some, Result, ok, err, ◌>>=◌, ltb, if◌then◌else◌,
}
use git_cdc.Core.Digest.{ChunkId, ObjectOid}
use git_cdc.Core.Profile.{ChunkingProfile, sizes}
use git_cdc.Core.Manifest.{ChunkDescriptor, ObjectManifest, v1, u32_limit, u64_limit}

pub record Hashes : Type 0 where
  pub sha256 : List ℕ → List ℕ
  pub blake3 : List ℕ → List ℕ

-- A chunk as `fastcdc` yields it.
pub record RawChunk : Type 0 where
  pub offset : ℕ
  pub length : ℕ
  pub bytes : List ℕ

-- An item of the inner stream: a chunk, or the text of an error.
abbrev pub Item : Type 0
Item = Result RawChunk (List ℕ)

pub record Cdc : Type 1 where
  pub Reader : Type 0
  pub stream_cdc : Reader → ℕ → ℕ → ℕ → List Item

pub record Chunk : Type 0 where
  pub descriptor : ChunkDescriptor
  pub bytes : List ℕ

pub data CoreError : Type 0 where
  chunking : List ℕ → CoreError
  chunk_too_large : ℕ → CoreError

pub record ChunkStream : Type 0 where
  pub inner : List Item
  pub profile : ChunkingProfile
  pub object_hasher : List ℕ
  pub descriptors : List ChunkDescriptor
  pub object_size : ℕ

unfoldable pub new : (c : Cdc) → c.Reader → ChunkingProfile → ChunkStream
new c reader profile = record {
  inner = c.stream_cdc reader (sizes profile).0 (sizes profile).1 (sizes profile).2;
  profile = profile;
  object_hasher = [];
  descriptors = [];
  object_size = 0;
}

module _ (hashes : Hashes) where
  open hashes use {sha256, blake3}

  -- The part of `Iterator::next` after the inner stream has given an item.
  unfoldable pub next_item : Item → ChunkStream → Result Chunk CoreError × ChunkStream
  next_item (err message) s = (err (chunking message), s)
  next_item (ok chunk) s =
      if ltb chunk.length u32_limit
      then (
        ok (record { descriptor = descriptor; bytes = chunk.bytes }),
        record s {
          object_hasher = s.object_hasher ++ chunk.bytes;
          object_size = (s.object_size + chunk.length) % u64_limit;
          descriptors = s.descriptors ++ (descriptor ∷ []);
        },
      )
      else (err (chunk_too_large chunk.length), s)
    where
      descriptor : ChunkDescriptor
      descriptor = record {
        id = record { bytes = blake3 chunk.bytes };
        offset = chunk.offset;
        length = chunk.length;
      }

  -- `Iterator::next`
  pub next : ChunkStream → Option (Result Chunk CoreError) × ChunkStream
  next s = elim s.inner [
    | [] ↦ (none, s)
    | item ∷ rest ↦ let (r, s') = next_item item (record s { inner = rest }) in (some r, s')
  ]

  unfoldable pub completed_manifest : ChunkStream → ObjectManifest
  completed_manifest s = record {
    version = v1;
    profile = s.profile;
    object_oid = record { bytes = sha256 s.object_hasher };
    object_size = s.object_size;
    chunks = s.descriptors;
  }

  -- `for chunk in self.by_ref() { chunk?; }`: the argument is the inner stream's items.
  unfoldable pub drain : List Item → ChunkStream → Result ChunkStream CoreError
  drain [] s = ok (record s { inner = [] })
  drain (item ∷ rest) s =
      let (r, s') = next_item item (record s { inner = rest }) in r >>= λ _. drain rest s'

  unfoldable pub finish : ChunkStream → Result ObjectManifest CoreError
  finish s = drain s.inner s >>= λ done. ok (completed_manifest done)

  pub collect_manifest : ChunkStream → Result ObjectManifest CoreError
  collect_manifest s = finish s
