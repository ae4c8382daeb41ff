-- ===== src/Core/Manifest/Coverage.antt =====
-- What a valid manifest is, written without the loop, and that `validate` accepts exactly those.
use git_cdc.Common.{
  ℕ, ◌+◌, ◌*◌, ◌≤◌, ◌<◌, ◌≡◌, ◌↔◌, ◌≢◌, inl, inr, List, [], ◌∷◌, length, ok, err, Result-cases,
  arith,
}
use git_cdc.Core.Profile.{fast_cdc_v1, sizes, ChunkingProfile}
use git_cdc.Core.Manifest.{
  ChunkDescriptor, ObjectManifest, size_overflow, max_object_size, max_chunk_descriptors, u64_limit,
  check_chunk, check_chunks, validate,
}

-- The chunks lie end to end from the first offset to the last.
abbrev pub Covers : ℕ → List ChunkDescriptor → ℕ → Type 0
Covers start [] end = start ≡ end
Covers start (c ∷ cs) end = (c.offset ≡ start) × Covers (start + c.length) cs end

-- Every chunk has bytes and at most `maximum` of them; all but the last have `minimum` or more.
abbrev pub SizesWithin : ℕ → ℕ → List ChunkDescriptor → Type 0
SizesWithin minimum maximum [] = Unit {0}
SizesWithin minimum maximum (c ∷ []) = (0 < c.length) × (c.length ≤ maximum)
SizesWithin minimum maximum (c ∷ d ∷ cs) =
    (0 < c.length)
    × (c.length ≤ maximum)
    × (minimum ≤ c.length)
    × SizesWithin minimum maximum (d ∷ cs)

pub record IsValid (m : ObjectManifest) : Type 0 where
  pub object_fits : m.object_size ≤ max_object_size
  pub chunks_fit : length m.chunks ≤ max_chunk_descriptors
  pub covered : Covers 0 m.chunks m.object_size
  pub sized : SizesWithin (sizes m.profile).0 (sizes m.profile).2 m.chunks

module _ (minimum maximum total : ℕ) where
  pub check_chunks_sound :
      (index start end : ℕ) (cs : List ChunkDescriptor)
      → index + length cs ≡ total
      → check_chunks minimum maximum total index start cs ≡ ok end
      → Covers start cs end × SizesWithin minimum maximum cs
  unfolding check_chunks check_chunk
  check_chunks_sound index start end [] n h = ground arith
  check_chunks_sound index start end (c ∷ []) n h =
      ground (arith, check_chunks_sound (index + 1) (start + c.length) end [])
  check_chunks_sound index start end (c ∷ d ∷ cs) n h =
      ground (arith, check_chunks_sound (index + 1) (start + c.length) end (d ∷ cs))

  pub Covers-le : (start end : ℕ) (cs : List ChunkDescriptor) → Covers start cs end → start ≤ end
  Covers-le start end [] h = omega arith
  Covers-le start end (c ∷ cs) h = omega (arith, Covers-le (start + c.length) end cs h.1)

  check_chunks_complete :
      (index start end : ℕ) (cs : List ChunkDescriptor)
      → index + length cs ≡ total
      → end < u64_limit
      → Covers start cs end
      → SizesWithin minimum maximum cs
      → check_chunks minimum maximum total index start cs ≡ ok end
  unfolding check_chunks check_chunk
  check_chunks_complete index start end [] n b h s = ground arith
  check_chunks_complete index start end (c ∷ []) n b h s =
      ground (arith, check_chunks_complete (index + 1) (start + c.length) end [])
  check_chunks_complete index start end (c ∷ d ∷ cs) n b h s = ground (
    arith,
    Covers-le (start + c.length) end (d ∷ cs) h.1,
    check_chunks_complete (index + 1) (start + c.length) end (d ∷ cs),
  )

  -- While the lengths are bounded by `maximum`, the running offset cannot overflow.
  check_chunks-ne-size_overflow :
      (index start : ℕ) (cs : List ChunkDescriptor)
      → start + length cs * maximum < u64_limit
      → check_chunks minimum maximum total index start cs ≢ err size_overflow
  unfolding check_chunks check_chunk
  check_chunks-ne-size_overflow index start [] b h = cc
  check_chunks-ne-size_overflow index start (c ∷ cs) b h =
      ground (arith, check_chunks-ne-size_overflow (index + 1) (start + c.length) cs)

-- `validate` accepts a manifest exactly if it is within the limits, its chunks lie end to end
-- over precisely `object_size` bytes, and every chunk's length is within the profile.
pub validate_iff : (m : ObjectManifest) → (validate m ≡ ok tt) ↔ IsValid m
unfolding validate
validate_iff m = (
  accepted,
  λ v. ground (
    arith,
    check_chunks_complete (sizes m.profile).0 (sizes m.profile).2 (length m.chunks) 0 0
        m.object_size m.chunks,
  ),
)
  where
    minimum : ℕ
    minimum = (sizes m.profile).0

    maximum : ℕ
    maximum = (sizes m.profile).2

    accepted : validate m ≡ ok tt → IsValid m
    accepted h = elim (Result-cases (check_chunks minimum maximum (length m.chunks) 0 0 m.chunks)) [
      | inl (end, e) ↦
          ground (arith, check_chunks_sound minimum maximum (length m.chunks) 0 0 end m.chunks)
      | inr (x, e) ↦ absurd (ground arith)
    ]

sizes_le : (p : ChunkingProfile) → (sizes p).2 ≤ 8 * 1024 * 1024
sizes_le fast_cdc_v1 = omega arith

count_le :
    (maximum count : ℕ)
    → maximum ≤ 8 * 1024 * 1024
    → count ≤ max_chunk_descriptors
    → 0 + count * maximum < u64_limit
count_le maximum count h k = grind arith

-- The overflow branch of the validation is unreachable, for every manifest.
pub validate-ne-size_overflow : (m : ObjectManifest) → validate m ≢ err size_overflow
unfolding validate
validate-ne-size_overflow m h = ground (
  arith,
  sizes_le m.profile,
  count_le (sizes m.profile).2 (length m.chunks),
  check_chunks-ne-size_overflow (sizes m.profile).0 (sizes m.profile).2 (length m.chunks) 0 0
      m.chunks,
)
