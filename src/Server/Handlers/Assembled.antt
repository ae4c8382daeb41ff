-- ===== src/Server/Handlers/Assembled.antt =====
-- Bytes that chunks add up to.
use git_cdc.Common.{ℕ, ◌+◌, ◌≡◌, ap, List, [], ◌∷◌, ◌++◌, length, length-append, arith}
use git_cdc.Core.Manifest.{ChunkDescriptor}
use git_cdc.Core.Manifest.Coverage.{Covers}

module _ (blake3 : List ℕ → List ℕ) where
  -- The bytes are the chunks' bytes, one after the other, each of the length and the BLAKE3 that its
  -- descriptor says.
  abbrev pub Assembled : List ChunkDescriptor → List ℕ → Type 0
  Assembled [] bytes = bytes ≡ []
  Assembled (c ∷ cs) bytes =
      (first : List ℕ) × (rest : List ℕ) × (bytes ≡ first ++ rest)
      × (blake3 first ≡ c.id.bytes)
      × (length first ≡ c.length)
      × Assembled cs rest

  -- Chunks that cover a range add up to as many bytes.
  pub Assembled-length :
      (start end : ℕ) (cs : List ChunkDescriptor) (bytes : List ℕ)
      → Covers start cs end
      → Assembled cs bytes
      → start + length bytes ≡ end
  Assembled-length start end [] bytes h a = omega (arith, ap length a, h)
  Assembled-length start end (c ∷ cs) bytes h (first, rest, e, _, l, a) = omega (
    arith,
    ap length e,
    length-append first rest,
    Assembled-length (start + c.length) end cs rest h.1 a,
  )
