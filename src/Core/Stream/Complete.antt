-- ===== src/Core/Stream/Complete.antt =====
-- What a drained stream's manifest says of the source, when the chunker cuts it as documented.
use git_cdc.Common.{
  ℕ, ◌+◌, ◌≤◌, ◌<◌, ◌≡◌, ap, sym, ◌∙◌, List, [], ◌∷◌, ◌++◌, map, length, length-append, ok, arith,
  All, lt→ltb,
}
use mathlib.Core.List.{append_assoc, append-nil}
use native.Mathlib.Nat.{mod-eq_of_lt, add-zero}
use git_cdc.Core.Manifest.{ChunkDescriptor, u32_limit, u64_limit}
use git_cdc.Core.Stream.{Hashes, RawChunk, Item, ChunkStream, next_item, drain}

-- The chunks are the source, cut: end to end, in order, with the lengths of their bytes.
abbrev pub Tiles : ℕ → List RawChunk → List ℕ → Type 0
Tiles start [] source = source ≡ []
Tiles start (c ∷ cs) source =
    (c.offset ≡ start)
    × (c.length ≡ length c.bytes)
    × (rest : List ℕ) × (source ≡ c.bytes ++ rest)
    × Tiles (start + c.length) cs rest

-- Their sizes, as the chunker is asked for: only the last may be short, and none is empty.
abbrev pub CutWithin : ℕ → ℕ → List RawChunk → Type 0
CutWithin minimum maximum [] = Unit {0}
CutWithin minimum maximum (c ∷ []) = (0 < c.length) × (c.length ≤ maximum)
CutWithin minimum maximum (c ∷ d ∷ cs) =
    (0 < c.length)
    × (c.length ≤ maximum)
    × (minimum ≤ c.length)
    × CutWithin minimum maximum (d ∷ cs)

-- What the inner stream yields for chunks that are cut without an error.
abbrev pub items : List RawChunk → List Item
items [] = []
items (c ∷ cs) = ok c ∷ items cs

module _ (hashes : Hashes) where
  abbrev pub descriptor_of : RawChunk → ChunkDescriptor
  descriptor_of c = record {
    id = record { bytes = hashes.blake3 c.bytes };
    offset = c.offset;
    length = c.length;
  }

  -- The stream after one chunk.
  abbrev taken : RawChunk → ChunkStream → ChunkStream
  taken c s = record s {
    object_hasher = s.object_hasher ++ c.bytes;
    descriptors = s.descriptors ++ (descriptor_of c ∷ []);
    object_size = s.object_size + c.length;
  }

  drain-ok :
      (c : RawChunk) (rest : List Item) (s : ChunkStream)
      → c.length < u32_limit
      → s.object_size + c.length < u64_limit
      → drain hashes (ok c ∷ rest) s ≡ drain hashes rest (taken c (record s { inner = rest }))
  unfolding drain next_item
  drain-ok c rest s small fits = rw (lt→ltb c.length u32_limit small, mod-eq_of_lt fits)

  abbrev all_taken : List RawChunk → List ℕ → ChunkStream → ChunkStream
  all_taken cs source s = record {
    inner = [];
    profile = s.profile;
    object_hasher = s.object_hasher ++ source;
    descriptors = s.descriptors ++ map descriptor_of cs;
    object_size = s.object_size + length source;
  }

  all_taken-taken :
      (c : RawChunk) (cs : List RawChunk) (rest : List ℕ) (s : ChunkStream)
      → c.length ≡ length c.bytes
      → all_taken cs rest (taken c (record s { inner = items cs }))
        ≡ all_taken (c ∷ cs) (c.bytes ++ rest) s
  all_taken-taken c cs rest s l = λ i. record {
    inner = [];
    profile = s.profile;
    object_hasher = append_assoc s.object_hasher c.bytes rest i;
    descriptors = append_assoc s.descriptors (descriptor_of c ∷ []) (map descriptor_of cs) i;
    object_size = total i;
  }
    where
      total : s.object_size + c.length + length rest ≡ s.object_size + length (c.bytes ++ rest)
      total = omega (arith, length-append c.bytes rest)

  -- Draining well-cut chunks takes them all in: bytes, sizes and descriptors.
  pub drain-Tiles :
      (start : ℕ) (cs : List RawChunk) (source : List ℕ) (s : ChunkStream)
      → Tiles start cs source
      → All (λ (c : RawChunk). c.length < u32_limit) cs
      → s.object_size + length source < u64_limit
      → drain hashes (items cs) s ≡ ok (all_taken cs source s)
  unfolding drain
  drain-Tiles start [] source s t w b =
      rw (t, append-nil s.object_hasher, append-nil s.descriptors, add-zero s.object_size)
  drain-Tiles start (c ∷ cs) source s (o, l, rest, e, t) w b =
      drain-ok c (items cs) s w.0 (omega (arith, size))
      ∙ drain-Tiles (start + c.length) cs rest (taken c (record s { inner = items cs })) t w.1
          (omega (arith, size))
      ∙ ap ok (all_taken-taken c cs rest s l)
      ∙ ap (λ x. ok (all_taken (c ∷ cs) x s)) (sym e)
    where
      size : length source ≡ length c.bytes + length rest
      size = ap length e ∙ length-append c.bytes rest
