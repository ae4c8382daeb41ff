-- ===== src/Core/Stream/Tests.antt =====
-- A stream of one short chunk.
use git_cdc.Common.{ℕ, ◌≡◌, refl, List, [], ◌∷◌, ok, length, arith}
use git_cdc.Core.Profile.{fast_cdc_v1}
use git_cdc.Core.Manifest.{validate}
use git_cdc.Core.Stream.{Hashes, Cdc, RawChunk, new, finish}
use git_cdc.Core.Stream.Valid.{manifest_of, finish-manifest_of}

-- Stand-ins for the two hashes: the length, and the bytes themselves.
abbrev hashes : Hashes
hashes = record { sha256 = λ bytes. length bytes ∷ []; blake3 = λ bytes. bytes }

abbrev source : List ℕ
source = 10 ∷ 20 ∷ 30 ∷ []

abbrev whole : RawChunk
whole = record { offset = 0; length = 3; bytes = source }

-- A chunker whose chunk is always the whole source.
abbrev chunker : Cdc
chunker = record { Reader = Unit {0}; stream_cdc = λ _ _ _ _. ok whole ∷ [] }

finish-manifest_of_example :
    (finish hashes (new chunker tt fast_cdc_v1)
      ≡ ok (manifest_of hashes fast_cdc_v1 source (whole ∷ [])))
    × (validate (manifest_of hashes fast_cdc_v1 source (whole ∷ [])) ≡ ok tt)
finish-manifest_of_example =
    finish-manifest_of hashes chunker tt fast_cdc_v1 source (whole ∷ []) refl
      (refl, refl, [], refl, refl) (omega arith, omega arith) (omega arith)
