-- ===== src/Core/Manifest/Bytes.antt =====
-- Every byte of an object lies in one chunk of a manifest that validate accepts.
use git_cdc.Common.{
  ℕ, zero, suc, ◌+◌, ◌≤◌, ◌<◌, ◌≡◌, refl, ap, inl, inr, List, [], ◌∷◌, some, ok, get_elem?, arith,
  Bool-cases, ltb,
}
use git_cdc.Core.Manifest.{ChunkDescriptor, ObjectManifest, validate}
use git_cdc.Core.Manifest.Coverage.{Covers, IsValid, validate_iff}

-- The chunk holds the byte at the position.
abbrev pub Holds : ℕ → ChunkDescriptor → Type 0
Holds p c = (c.offset ≤ p) × (p < c.offset + c.length)

abbrev Found : ℕ → List ChunkDescriptor → Type 0
Found p cs = (i : ℕ) × (c : ChunkDescriptor) × (get_elem? cs i ≡ some c) × Holds p c

Covers-Found :
    (p start end : ℕ) (cs : List ChunkDescriptor)
    → Covers start cs end
    → start ≤ p
    → p < end
    → Found p cs
Covers-Found p start end [] h a b = absurd (omega arith)
Covers-Found p start end (c ∷ cs) h a b = elim (Bool-cases (ltb p (start + c.length))) [
  | inl near ↦ (0, c, refl, (omega (arith, h.0), ground arith))
  | inr far ↦
      let (i, d, e, holds) = Covers-Found p (start + c.length) end cs h.1 (ground arith) b in
      (suc i, d, e, holds)
]

-- A chunk further on starts at or after the first offset.
Covers-offset :
    (start end i : ℕ) (cs : List ChunkDescriptor) (c : ChunkDescriptor)
    → Covers start cs end
    → get_elem? cs i ≡ some c
    → start ≤ c.offset
Covers-offset start end i [] c h e = cc
Covers-offset start end zero (d ∷ cs) c h e = ground arith
Covers-offset start end (suc i) (d ∷ cs) c h e =
    omega (arith, Covers-offset (start + d.length) end i cs c h.1 e)

Covers-unique :
    (p start end i j : ℕ) (cs : List ChunkDescriptor) (c d : ChunkDescriptor)
    → Covers start cs end
    → get_elem? cs i ≡ some c
    → get_elem? cs j ≡ some d
    → Holds p c
    → Holds p d
    → j ≡ i
Covers-unique p start end i j [] c d h ei ej hc hd = cc
Covers-unique p start end zero zero (x ∷ cs) c d h ei ej hc hd = refl
Covers-unique p start end zero (suc j) (x ∷ cs) c d h ei ej hc hd =
    absurd (ground (arith, Covers-offset (start + x.length) end j cs d h.1 ej))
Covers-unique p start end (suc i) zero (x ∷ cs) c d h ei ej hc hd =
    absurd (ground (arith, Covers-offset (start + x.length) end i cs c h.1 ei))
Covers-unique p start end (suc i) (suc j) (x ∷ cs) c d h ei ej hc hd =
    ap suc (Covers-unique p (start + x.length) end i j cs c d h.1 ei ej hc hd)

IsValid-byte :
    (m : ObjectManifest) (p : ℕ)
    → IsValid m
    → p < m.object_size
    → (i : ℕ) × (c : ChunkDescriptor) × (get_elem? m.chunks i ≡ some c)
      × Holds p c
      × ((j : ℕ) (d : ChunkDescriptor) → get_elem? m.chunks j ≡ some d → Holds p d → j ≡ i)
IsValid-byte m p v b =
    let (i, c, e, holds) = Covers-Found p 0 m.object_size m.chunks v.covered (omega arith) b in
    (
      i,
      c,
      e,
      holds,
      λ j d ej hd. Covers-unique p 0 m.object_size i j m.chunks c d v.covered e ej holds hd,
    )

-- In a manifest that `validate` accepts each byte position below `object_size` lies in a chunk, and
-- in one only.
pub validate-byte :
    (m : ObjectManifest) (p : ℕ)
    → validate m ≡ ok tt
    → p < m.object_size
    → (i : ℕ) × (c : ChunkDescriptor) × (get_elem? m.chunks i ≡ some c)
      × Holds p c
      × ((j : ℕ) (d : ChunkDescriptor) → get_elem? m.chunks j ≡ some d → Holds p d → j ≡ i)
validate-byte m p accepted b = IsValid-byte m p ((validate_iff m).0 accepted) b
