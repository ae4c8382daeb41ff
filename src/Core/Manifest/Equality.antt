-- ===== src/Core/Manifest/Equality.antt =====
-- The derived `PartialEq` of a manifest.
use git_cdc.Common.{Bool, true, false, ◌&&◌, ◌≡◌, ◌↔◌, List, [], ◌∷◌, nat_eq, arith}
use git_cdc.Core.Digest.{chunk_id_eq, chunk_id_eq_iff, object_oid_eq, object_oid_eq_iff}
use git_cdc.Core.Profile.{fast_cdc_v1, ChunkingProfile}
use git_cdc.Core.Manifest.{ChunkDescriptor, ObjectManifest, ManifestVersion, v1}

unfoldable pub version_eq : ManifestVersion → ManifestVersion → Bool
version_eq v1 v1 = true

unfoldable pub profile_eq : ChunkingProfile → ChunkingProfile → Bool
profile_eq fast_cdc_v1 fast_cdc_v1 = true

unfoldable pub descriptor_eq : ChunkDescriptor → ChunkDescriptor → Bool
descriptor_eq a b = chunk_id_eq a.id b.id && (nat_eq a.offset b.offset && nat_eq a.length b.length)

unfoldable pub chunks_eq : List ChunkDescriptor → List ChunkDescriptor → Bool
chunks_eq [] [] = true
chunks_eq [] (b ∷ bs) = false
chunks_eq (a ∷ as') [] = false
chunks_eq (a ∷ as') (b ∷ bs) = descriptor_eq a b && chunks_eq as' bs

unfoldable pub manifest_eq : ObjectManifest → ObjectManifest → Bool
manifest_eq a b =
    version_eq a.version b.version
    && (profile_eq a.profile b.profile
        && (object_oid_eq a.object_oid b.object_oid
            && (nat_eq a.object_size b.object_size && chunks_eq a.chunks b.chunks)))

chunks_eq_iff : (a b : List ChunkDescriptor) → (chunks_eq a b ≡ true) ↔ (a ≡ b)
unfolding chunks_eq descriptor_eq
chunks_eq_iff [] [] = ground arith
chunks_eq_iff [] (b ∷ bs) = ground arith
chunks_eq_iff (a ∷ as') [] = ground arith
chunks_eq_iff (a ∷ as') (b ∷ bs) = ground (arith, chunk_id_eq_iff a.id b.id, chunks_eq_iff as' bs)

version_eq_iff : (a b : ManifestVersion) → (version_eq a b ≡ true) ↔ (a ≡ b)
unfolding version_eq
version_eq_iff v1 v1 = ground arith

profile_eq_iff : (a b : ChunkingProfile) → (profile_eq a b ≡ true) ↔ (a ≡ b)
unfolding profile_eq
profile_eq_iff fast_cdc_v1 fast_cdc_v1 = ground arith

pub manifest_eq_iff : (a b : ObjectManifest) → (manifest_eq a b ≡ true) ↔ (a ≡ b)
unfolding manifest_eq
manifest_eq_iff a b = ground (
  arith,
  version_eq_iff a.version b.version,
  profile_eq_iff a.profile b.profile,
  object_oid_eq_iff a.object_oid b.object_oid,
  chunks_eq_iff a.chunks b.chunks,
)
