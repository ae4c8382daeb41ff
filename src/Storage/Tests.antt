-- ===== src/Storage/Tests.antt =====
-- A chunk is stored in the store in memory, and read again.
use git_cdc.Common.{ℕ, ◌≡◌, ◌↔◌, refl, List, [], ◌∷◌, ok, list_eq}
use git_cdc.Core.Digest.{ChunkId}
use git_cdc.Storage.{verify_digest, chunk_path, put_result, put_verified, get_verified}
use git_cdc.Storage.Integrity.{Readable, get_verified_iff, put_verified-Readable}
use git_cdc.Storage.Memory.{Files, memory, memory_Lawful, in_memory}

abbrev bytes : List ℕ
bytes = 10 ∷ 20 ∷ []

abbrev id : ChunkId
id = record { bytes = bytes }

abbrev stored : Files
stored = (put_verified in_memory 1 id bytes []).1

put_verified-bytes : (put_verified in_memory 1 id bytes []).0 ≡ ok tt
unfolding put_verified put_result verify_digest chunk_path list_eq
put_verified-bytes = refl

get_verified_iff_example :
    ((get_verified in_memory 1 id stored).0 ≡ ok bytes)
    ↔ (((memory.get (chunk_path in_memory 1 id) stored).0 ≡ ok bytes) × (bytes ≡ bytes))
get_verified_iff_example = get_verified_iff in_memory 1 id stored bytes

put_verified-Readable_example : Readable in_memory 1 id bytes stored
put_verified-Readable_example =
    put_verified-Readable in_memory memory_Lawful 1 id bytes [] (λ old there. absurd (cc))
      (λ x e. e) put_verified-bytes
