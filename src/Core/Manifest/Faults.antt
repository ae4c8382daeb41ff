-- ===== src/Core/Manifest/Faults.antt =====
-- What a refusal says of the manifest: the first broken chunk, and what is wrong with it.
use git_cdc.Common.{
  passed, ℕ, ◌+◌, ◌≤◌, ◌<◌, ◌≡◌, ◌≢◌, refl, inl, inr, List, [], ◌∷◌, ◌++◌, length, ok, err,
  Result-cases, arith, ap, sym, subst, ◌⊎◌, Result,
}
use git_cdc.Core.Profile.{sizes}
use git_cdc.Core.Manifest.{
  ChunkDescriptor, ObjectManifest, ManifestError, object_too_large, too_many_chunks, empty_chunk,
  chunk_too_small, chunk_too_large, unexpected_offset, size_overflow, size_mismatch, u64_limit,
  max_object_size, max_chunk_descriptors, to_u32_saturating, check_chunk, check_chunks, validate,
}

module _ (minimum maximum total : ℕ) where
  -- The chunk `c` at index `i`, where `start` is the next byte, has the fault that `e` reports.
  abbrev pub Broken : ℕ → ℕ → ChunkDescriptor → ManifestError → Type 0
  Broken i start c (empty_chunk j) = (j ≡ i) × (c.length ≡ 0)
  Broken i start c (unexpected_offset j expected actual) =
      (j ≡ i) × (expected ≡ start) × (actual ≡ c.offset) × (actual ≢ expected)
  Broken i start c (chunk_too_large j actual limit) =
      (j ≡ i) × (actual ≡ c.length) × (maximum < actual) × (limit ≡ to_u32_saturating maximum)
  Broken i start c (chunk_too_small j actual limit) =
      (j ≡ i)
      × (actual ≡ c.length)
      × (i + 1 < total)
      × (actual < minimum)
      × (limit ≡ to_u32_saturating minimum)
  Broken i start c size_overflow = u64_limit ≤ start + c.length
  Broken i start c (object_too_large a b) = ⊥
  Broken i start c (too_many_chunks a b) = ⊥
  Broken i start c (size_mismatch a b) = ⊥

  check_chunk-Broken :
      (i start : ℕ) (c : ChunkDescriptor) (e : ManifestError)
      → check_chunk minimum maximum total i start c ≡ err e
      → Broken i start c e
  unfolding check_chunk
  check_chunk-Broken i start c (empty_chunk j) h = ground arith
  check_chunk-Broken i start c (unexpected_offset j expected actual) h = ground arith
  check_chunk-Broken i start c (chunk_too_large j actual limit) h = ground arith
  check_chunk-Broken i start c (chunk_too_small j actual limit) h = ground arith
  check_chunk-Broken i start c size_overflow h = ground arith
  check_chunk-Broken i start c (object_too_large a b) h = ground arith
  check_chunk-Broken i start c (too_many_chunks a b) h = ground arith
  check_chunk-Broken i start c (size_mismatch a b) h = ground arith

  -- The chunk `c` at index `i`, where `start` is the next byte, has no fault.
  abbrev pub Unbroken : ℕ → ℕ → ChunkDescriptor → Type 0
  Unbroken i start c =
      (c.length ≢ 0)
      × (c.offset ≡ start)
      × (c.length ≤ maximum)
      × ((total ≤ i + 1) ⊎ (minimum ≤ c.length))
      × (start + c.length < u64_limit)

  -- The chunks from index `i` on lie end to end from `start` to `end`, and none has a fault.
  abbrev pub AllUnbroken : ℕ → ℕ → List ChunkDescriptor → ℕ → Type 0
  AllUnbroken i start [] end = start ≡ end
  AllUnbroken i start (c ∷ cs) end =
      Unbroken i start c × AllUnbroken (i + 1) (start + c.length) cs end

  check_chunk-Unbroken :
      (i start next : ℕ) (c : ChunkDescriptor)
      → check_chunk minimum maximum total i start c ≡ ok next
      → Unbroken i start c × (next ≡ start + c.length)
  unfolding check_chunk
  check_chunk-Unbroken i start next c h = ground arith

  check_chunks-AllUnbroken :
      (i start end : ℕ) (cs : List ChunkDescriptor)
      → check_chunks minimum maximum total i start cs ≡ ok end
      → AllUnbroken i start cs end
  unfolding check_chunks
  check_chunks-AllUnbroken i start end [] h = cc
  check_chunks-AllUnbroken i start end (c ∷ cs) h =
      let (next, one, rest) = passed (check_chunk minimum maximum total i start c) _ end h in
      let (fine, n) = check_chunk-Unbroken i start next c one in
      (
        fine,
        subst (λ k. AllUnbroken (i + 1) k cs end) n
            (check_chunks-AllUnbroken (i + 1) next end cs rest),
      )

  -- The chunks before the broken one have no fault, so it is the first that has one.
  abbrev pub FirstBroken : ℕ → ℕ → List ChunkDescriptor → ManifestError → Type 0
  FirstBroken i start cs e =
      (before : List ChunkDescriptor) × (c : ChunkDescriptor) × (after : List ChunkDescriptor)
      × (here : ℕ) × (cs ≡ before ++ (c ∷ after))
      × AllUnbroken i start before here
      × Broken (i + length before) here c e

  check_chunks-FirstBroken :
      (i start : ℕ) (cs : List ChunkDescriptor) (e : ManifestError)
      → check_chunks minimum maximum total i start cs ≡ err e
      → FirstBroken i start cs e
  unfolding check_chunks
  check_chunks-FirstBroken i start [] e h = absurd (cc)
  check_chunks-FirstBroken i start (c ∷ cs) e h =
      elim (Result-cases (check_chunk minimum maximum total i start c)) [
        | inl (next, f) ↦ further next f (check_chunks-FirstBroken (i + 1) next cs e (ground arith))
        | inr (x, f) ↦ (
          [],
          c,
          cs,
          start,
          refl,
          refl,
          subst (λ k. Broken k start c e) (omega arith)
              (check_chunk-Broken i start c e (ground (arith, f))),
        )
      ]
    where
      further :
          (next : ℕ)
          → check_chunk minimum maximum total i start c ≡ ok next
          → FirstBroken (i + 1) next cs e
          → FirstBroken i start (c ∷ cs) e
      further next f (before, d, after, here, split, unbroken, broken) =
          let (fine, n) = check_chunk-Unbroken i start next c f in
          (
            c ∷ before,
            d,
            after,
            here,
            ap (◌∷◌ c) split,
            (fine, subst (λ k. AllUnbroken (i + 1) k before here) n unbroken),
            subst (λ k. Broken k here d e) (omega arith) broken,
          )

-- What each refusal of `validate` reports.
abbrev pub Fault : ObjectManifest → ManifestError → Type 0
Fault m (object_too_large actual limit) =
    (actual ≡ m.object_size) × (limit ≡ max_object_size) × (limit < actual)
Fault m (too_many_chunks actual limit) =
    (actual ≡ length m.chunks) × (limit ≡ max_chunk_descriptors) × (limit < actual)
Fault m (size_mismatch declared described) =
    (declared ≡ m.object_size)
    × AllUnbroken (sizes m.profile).0 (sizes m.profile).2 (length m.chunks) 0 0 m.chunks described
    × (declared ≢ described)
Fault m e = FirstBroken (sizes m.profile).0 (sizes m.profile).2 (length m.chunks) 0 0 m.chunks e

module _ (m : ObjectManifest) where
  abbrev loop : Result ℕ ManifestError
  loop = check_chunks (sizes m.profile).0 (sizes m.profile).2 (length m.chunks) 0 0 m.chunks

  loop-Fault :
      (e : ManifestError)
      → FirstBroken (sizes m.profile).0 (sizes m.profile).2 (length m.chunks) 0 0 m.chunks e
      → Fault m e
  loop-Fault (object_too_large a b) f = absurd f.6
  loop-Fault (too_many_chunks a b) f = absurd f.6
  loop-Fault (size_mismatch a b) f = absurd f.6
  loop-Fault (empty_chunk j) f = f
  loop-Fault (unexpected_offset j a b) f = f
  loop-Fault (chunk_too_large j a b) f = f
  loop-Fault (chunk_too_small j a b) f = f
  loop-Fault size_overflow f = f

  -- Where a refusal comes from: one of the limits, the loop, or the comparison of the sizes.
  abbrev Origin : ManifestError → Type 0
  Origin e =
      ((max_object_size < m.object_size) × (e ≡ object_too_large m.object_size max_object_size))
      ⊎ (max_chunk_descriptors < length m.chunks)
        × (e ≡ too_many_chunks (length m.chunks) max_chunk_descriptors)
      ⊎ (loop ≡ err e)
      ⊎ ((described : ℕ) × (loop ≡ ok described)
          × (described ≢ m.object_size)
          × (e ≡ size_mismatch m.object_size described))

  refused-Origin : (e : ManifestError) → validate m ≡ err e → Origin e
  unfolding validate
  refused-Origin e h = elim (Result-cases loop) [
    | inl (described, f) ↦ ground arith
    | inr (x, f) ↦ ground arith
  ]

-- A refusal is never spurious: it names a fault that the manifest has, with the numbers that are
-- in the manifest. A chunk that it names is the first that has a fault of any kind: those before it
-- lie end to end from offset 0, and their lengths are within the profile. If it says that the sizes
-- differ, no chunk has a fault.
pub validate-Fault : (m : ObjectManifest) (e : ManifestError) → validate m ≡ err e → Fault m e
validate-Fault m e h = elim (refused-Origin m e h) [
  | inl (big, q) ↦ subst (Fault m) (sym q) (refl, refl, big)
  | inr (inl (many, q)) ↦ subst (Fault m) (sym q) (refl, refl, many)
  | inr (inr (inl f)) ↦ loop-Fault m e (check_chunks-FirstBroken _ _ _ 0 0 m.chunks e f)
  | inr (inr (inr (described, f, differ, q))) ↦
      subst (Fault m) (sym q)
        (refl, check_chunks-AllUnbroken _ _ _ 0 0 described m.chunks f, λ same. differ (sym same))
]
