-- ===== src/Core/Manifest/Tests.antt =====
-- Runs of `validate` on small manifests.
use git_cdc.Common.{ℕ, ◌≡◌, ◌↔◌, ◌≢◌, refl, List, [], ◌∷◌, get_elem?, some, ok, err, arith}
use git_cdc.Core.Profile.{fast_cdc_v1}
use git_cdc.Core.Manifest.{
  ChunkDescriptor, ObjectManifest, v1, unexpected_offset, size_overflow, validate, check_chunks,
  check_chunk,
}
use git_cdc.Core.Manifest.Coverage.{IsValid, validate_iff, validate-ne-size_overflow}
use git_cdc.Core.Manifest.Bytes.{Holds, validate-byte}
use git_cdc.Core.Manifest.Faults.{Fault, validate-Fault}

abbrev descriptor : ℕ → ℕ → ChunkDescriptor
descriptor offset length = record {
  id = record { bytes = 7 ∷ [] };
  offset = offset;
  length = length;
}

abbrev manifest : ℕ → List ChunkDescriptor → ObjectManifest
manifest size chunks = record {
  version = v1;
  profile = fast_cdc_v1;
  object_oid = record { bytes = 9 ∷ [] };
  object_size = size;
  chunks = chunks;
}

abbrev two_chunks : ObjectManifest
two_chunks = manifest 524291 (descriptor 0 524288 ∷ descriptor 524288 3 ∷ [])

abbrev with_gap : ObjectManifest
with_gap = manifest 524291 (descriptor 0 524288 ∷ descriptor 524289 2 ∷ [])

validate-two_chunks : validate two_chunks ≡ ok tt
unfolding validate check_chunks check_chunk
validate-two_chunks = refl

validate-with_gap : validate with_gap ≡ err (unexpected_offset 1 524288 524289)
unfolding validate check_chunks check_chunk
validate-with_gap = refl

validate_iff_example : (validate two_chunks ≡ ok tt) ↔ IsValid two_chunks
validate_iff_example = validate_iff two_chunks

validate-ne-size_overflow_example : validate with_gap ≢ err size_overflow
validate-ne-size_overflow_example = validate-ne-size_overflow with_gap

validate-byte_example :
    (i : ℕ) × (c : ChunkDescriptor) × (get_elem? two_chunks.chunks i ≡ some c)
    × Holds 524289 c
    × ((j : ℕ) (d : ChunkDescriptor)
        → get_elem? two_chunks.chunks j ≡ some d
        → Holds 524289 d
        → j ≡ i)
validate-byte_example = validate-byte two_chunks 524289 validate-two_chunks (omega arith)

validate-Fault_example : Fault with_gap (unexpected_offset 1 524288 524289)
validate-Fault_example =
    validate-Fault with_gap (unexpected_offset 1 524288 524289) validate-with_gap
