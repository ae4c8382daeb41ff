-- ===== src/Core/Manifest.antt =====
-- crates/git-lfs-delta-core/src/manifest.rs: the recipe of an object, and its validation.
-- A `u64`, a `u32` and a `usize` (64 bits) are native numbers; `checked_add` has its bound.
pub mod Coverage
pub mod Bytes
pub mod Faults
pub mod Equality
mod Tests
use git_cdc.Common.{
  ℕ, suc, ◌+◌, ◌-◌, ◌*◌, ◌^◌, Bool, true, false, not, ◌&&◌, Option, none, some, List, [], ◌∷◌,
  length, Result, ok, err, ◌>>=◌, ◌>>◌, refuse_if, ok_or, ltb, nat_eq, if◌then◌else◌,
}
use git_cdc.Core.Digest.{ChunkId, ObjectOid}
use git_cdc.Core.Profile.{ChunkingProfile, sizes}

abbrev pub max_object_size : ℕ
max_object_size = 100 * 1024 * 1024 * 1024

abbrev pub max_chunk_descriptors : ℕ
max_chunk_descriptors = 204800

abbrev pub u64_limit : ℕ
u64_limit = 2 ^ 64

abbrev pub u32_limit : ℕ
u32_limit = 2 ^ 32

pub data ManifestVersion : Type 0 where
  v1 : ManifestVersion

pub record ChunkDescriptor : Type 0 where
  pub id : ChunkId
  pub offset : ℕ
  pub length : ℕ

pub record ObjectManifest : Type 0 where
  pub version : ManifestVersion
  pub profile : ChunkingProfile
  pub object_oid : ObjectOid
  pub object_size : ℕ
  pub chunks : List ChunkDescriptor

pub data ManifestError : Type 0 where
  object_too_large : ℕ → ℕ → ManifestError
  too_many_chunks : ℕ → ℕ → ManifestError
  empty_chunk : ℕ → ManifestError
  chunk_too_small : ℕ → ℕ → ℕ → ManifestError
  chunk_too_large : ℕ → ℕ → ℕ → ManifestError
  unexpected_offset : ℕ → ℕ → ℕ → ManifestError
  size_overflow : ManifestError
  size_mismatch : ℕ → ℕ → ManifestError

-- `u64::checked_add`
abbrev pub checked_add : ℕ → ℕ → Option ℕ
checked_add a b = if ltb (a + b) u64_limit then some (a + b) else none

-- `u32::try_from(n).unwrap_or(u32::MAX)`
abbrev pub to_u32_saturating : ℕ → ℕ
to_u32_saturating n = if ltb n u32_limit then n else u32_limit - 1

module _ (minimum maximum total : ℕ) where
  -- One round of the loop: the checks of the chunk at `index`, and the next expected offset.
  unfoldable pub check_chunk : ℕ → ℕ → ChunkDescriptor → Result ℕ ManifestError
  check_chunk index expected_offset chunk = do
    refuse_if (nat_eq chunk.length 0) (empty_chunk index)
    refuse_if (not (nat_eq chunk.offset expected_offset))
        (unexpected_offset index expected_offset chunk.offset)
    refuse_if (ltb maximum chunk.length)
        (chunk_too_large index chunk.length (to_u32_saturating maximum))
    refuse_if (ltb (index + 1) total && ltb chunk.length minimum)
        (chunk_too_small index chunk.length (to_u32_saturating minimum))
    ok_or (checked_add expected_offset chunk.length) size_overflow

  -- The loop, from the chunk at `index` on.
  unfoldable pub check_chunks : ℕ → ℕ → List ChunkDescriptor → Result ℕ ManifestError
  check_chunks index expected_offset [] = ok expected_offset
  check_chunks index expected_offset (chunk ∷ rest) =
      check_chunk index expected_offset chunk >>= λ next. check_chunks (index + 1) next rest

unfoldable pub validate : ObjectManifest → Result (Unit {0}) ManifestError
validate m = do
  refuse_if (ltb max_object_size m.object_size) (object_too_large m.object_size max_object_size)
  refuse_if (ltb max_chunk_descriptors total) (too_many_chunks total max_chunk_descriptors)
  described ← check_chunks (sizes m.profile).0 (sizes m.profile).2 total 0 0 m.chunks
  refuse_if (not (nat_eq described m.object_size)) (size_mismatch m.object_size described)
  where
    total : ℕ
    total = length m.chunks
