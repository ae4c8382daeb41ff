-- ===== src/Core/Stream/Valid.antt =====
-- The manifest that `finish` gives: equal to the described source, and accepted by `validate`.
use git_cdc.Common.{
  ℕ, suc, ◌+◌, ◌*◌, ◌≤◌, ◌<◌, ◌≡◌, refl, ap, List, [], ◌∷◌, map, length, length-append, ok, arith,
  All,
}
use git_cdc.Core.Profile.{ChunkingProfile, fast_cdc_v1, sizes}
use git_cdc.Core.Manifest.{
  ObjectManifest, v1, max_object_size, max_chunk_descriptors, u32_limit, validate,
}
use git_cdc.Core.Manifest.Coverage.{Covers, SizesWithin, IsValid, validate_iff}
use native.Mathlib.Nat.{zero-add}
use git_cdc.Core.Stream.{ChunkStream, completed_manifest, Hashes, Cdc, RawChunk, new, finish}
use git_cdc.Core.Stream.Complete.{Tiles, CutWithin, descriptor_of, items, drain-Tiles}

CutWithin-All :
    (minimum maximum bound : ℕ) (cs : List RawChunk)
    → maximum < bound
    → CutWithin minimum maximum cs
    → All (λ (c : RawChunk). c.length < bound) cs
CutWithin-All minimum maximum bound [] h w = tt
CutWithin-All minimum maximum bound (c ∷ []) h w = (omega arith, tt)
CutWithin-All minimum maximum bound (c ∷ d ∷ cs) h w =
    (omega arith, CutWithin-All minimum maximum bound (d ∷ cs) h w.3)

-- All chunks but the last have `minimum` bytes, which bounds their number.
count_bound :
    (minimum maximum start : ℕ) (c : RawChunk) (cs : List RawChunk) (source : List ℕ)
    → Tiles start (c ∷ cs) source
    → CutWithin minimum maximum (c ∷ cs)
    → length cs * minimum < length source
count_bound minimum maximum start c [] source (o, l, rest, e, t) w =
    omega (arith, ap length e, length-append c.bytes rest)
count_bound minimum maximum start c (d ∷ cs) source (o, l, rest, e, t) w = omega (
  arith,
  ap length e,
  length-append c.bytes rest,
  count_bound minimum maximum (start + c.length) d cs rest t w.3,
)

count_fits :
    (p : ChunkingProfile) (cs : List RawChunk) (source : List ℕ)
    → Tiles 0 cs source
    → CutWithin (sizes p).0 (sizes p).2 cs
    → length source ≤ max_object_size
    → length cs ≤ max_chunk_descriptors
count_fits fast_cdc_v1 [] source t w h = omega arith
count_fits fast_cdc_v1 (c ∷ cs) source t w h =
    omega (arith, count_bound (512 * 1024) (8 * 1024 * 1024) 0 c cs source t w)

sizes_small : (p : ChunkingProfile) → (sizes p).2 < u32_limit
sizes_small fast_cdc_v1 = omega arith

module _ (hashes : Hashes) where
  Tiles-Covers :
      (start end : ℕ) (cs : List RawChunk) (source : List ℕ)
      → Tiles start cs source
      → start + length source ≡ end
      → Covers start (map (descriptor_of hashes) cs) end
  Tiles-Covers start end [] source t h = omega (arith, ap length t)
  Tiles-Covers start end (c ∷ cs) source (o, l, rest, e, t) h = (
    o,
    Tiles-Covers (start + c.length) end cs rest t
        (omega (arith, ap length e, length-append c.bytes rest)),
  )

  CutWithin-SizesWithin :
      (minimum maximum : ℕ) (cs : List RawChunk)
      → CutWithin minimum maximum cs
      → SizesWithin minimum maximum (map (descriptor_of hashes) cs)
  CutWithin-SizesWithin minimum maximum [] w = tt
  CutWithin-SizesWithin minimum maximum (c ∷ []) w = w
  CutWithin-SizesWithin minimum maximum (c ∷ d ∷ cs) w =
      (w.0, w.1, w.2, CutWithin-SizesWithin minimum maximum (d ∷ cs) w.3)

  length-map-descriptor_of :
      (cs : List RawChunk) → length (map (descriptor_of hashes) cs) ≡ length cs
  length-map-descriptor_of [] = refl
  length-map-descriptor_of (c ∷ cs) = ap suc (length-map-descriptor_of cs)

  -- The manifest of a source that is cut into the given chunks.
  abbrev pub manifest_of : ChunkingProfile → List ℕ → List RawChunk → ObjectManifest
  manifest_of p source cs = record {
    version = v1;
    profile = p;
    object_oid = record { bytes = hashes.sha256 source };
    object_size = length source;
    chunks = map (descriptor_of hashes) cs;
  }

  -- If the chunker cuts the source end to end into chunks of the sizes it is asked for, and the
  -- source is within the object limit, `finish` succeeds: its manifest has the SHA-256 and the size
  -- of the source and the BLAKE3, offset and length of every chunk, and `validate` accepts it.
  pub finish-manifest_of :
      (c : Cdc) (reader : c.Reader) (p : ChunkingProfile) (source : List ℕ) (cs : List RawChunk)
      → c.stream_cdc reader (sizes p).0 (sizes p).1 (sizes p).2 ≡ items cs
      → Tiles 0 cs source
      → CutWithin (sizes p).0 (sizes p).2 cs
      → length source ≤ max_object_size
      → (finish hashes (new c reader p) ≡ ok (manifest_of p source cs))
        × (validate (manifest_of p source cs) ≡ ok tt)
  unfolding finish new completed_manifest
  finish-manifest_of c reader p source cs cut t w fits = (finished, (validate_iff _).1 valid)
    where
      opened : ChunkStream
      opened = record {
        inner = items cs;
        profile = p;
        object_hasher = [];
        descriptors = [];
        object_size = 0;
      }

      small : All (λ (c : RawChunk). c.length < u32_limit) cs
      small = CutWithin-All _ _ u32_limit cs (sizes_small p) w

      finished : finish hashes (new c reader p) ≡ ok (manifest_of p source cs)
      finished = rw (
        cut,
        drain-Tiles hashes 0 cs source opened t small (omega arith),
        zero-add (length source),
      )

      valid : IsValid (manifest_of p source cs)
      valid = record {
        object_fits = fits;
        chunks_fit = rw (length-map-descriptor_of cs) (count_fits p cs source t w fits);
        covered = Tiles-Covers 0 (length source) cs source t (omega arith);
        sized = CutWithin-SizesWithin _ _ cs w;
      }
