-- ===== src/Storage/Memory.antt =====
-- An object store in memory, which the tests run the code over.
use git_cdc.Common.{
  ℕ, ◌+◌, ◌/◌, ◌%◌, List, [], ◌∷◌, Option, none, some, Result, ok, err, list_eq, list_eq_iff, ◌≡◌,
  refl, if◌then◌else◌, length,
}
use git_cdc.Core.Stream.{Hashes}
use git_cdc.Storage.Integrity.{Lawful}
use git_cdc.Storage.{ObjectStore, ProviderError, not_found, already_exists, Backing}

abbrev pub Files : Type 0
Files = List (List ℕ × List ℕ)

abbrev pub lookup : List ℕ → Files → Option (List ℕ)
lookup p [] = none
lookup p ((q, bytes) ∷ fs) = if list_eq q p then some bytes else lookup p fs

abbrev pub without : List ℕ → Files → Files
without p [] = []
without p ((q, bytes) ∷ fs) = if list_eq q p then without p fs else (q, bytes) ∷ without p fs

abbrev found : Option (List ℕ) → Files → Result (List ℕ) ProviderError × Files
found none fs = (err not_found, fs)
found (some bytes) fs = (ok bytes, fs)

abbrev pub headed : Option (List ℕ) → Files → Result (Unit {0}) ProviderError × Files
headed none fs = (err not_found, fs)
headed (some bytes) fs = (ok tt, fs)

abbrev created : Option (List ℕ) → List ℕ → List ℕ → Files → Result (Unit {0}) ProviderError × Files
created none p bytes fs = (ok tt, (p, bytes) ∷ fs)
created (some old) p bytes fs = (err already_exists, fs)

abbrev pub memory : ObjectStore
memory = record {
  State = Files;
  ObjectPath = List ℕ;
  path_from = λ text. text;
  put_create = λ p bytes fs. created (lookup p fs) p bytes fs;
  put = λ p bytes fs. (ok tt, (p, bytes) ∷ without p fs);
  get = λ p fs. found (lookup p fs) fs;
  head = λ p fs. headed (lookup p fs) fs;
  delete = λ p fs. (ok tt, without p fs);
}

pub found-some :
    (o : Option (List ℕ)) (fs : Files) (bytes : List ℕ) → (found o fs).0 ≡ ok bytes → o ≡ some bytes
found-some none fs bytes h = absurd (cc)
found-some (some x) fs bytes h = cc

pub found-none : (o : Option (List ℕ)) (fs : Files) → (found o fs).0 ≡ err not_found → o ≡ none
found-none none fs h = refl
found-none (some x) fs h = absurd (cc)

pub created_new :
    (o : Option (List ℕ)) (p bytes : List ℕ) (fs : Files)
    → (created o p bytes fs).0 ≡ ok tt
    → lookup p (created o p bytes fs).1 ≡ some bytes
created_new none p bytes fs h = rw ((list_eq_iff p p).1 refl)
created_new (some old) p bytes fs h = absurd (cc)

pub created_old :
    (o : Option (List ℕ)) (p bytes : List ℕ) (fs : Files)
    → lookup p fs ≡ o
    → (created o p bytes fs).0 ≡ err already_exists
    → (old : List ℕ) × (lookup p fs ≡ some old) × (lookup p (created o p bytes fs).1 ≡ some old)
created_old none p bytes fs e h = absurd (cc)
created_old (some old) p bytes fs e h = (old, e, e)

abbrev pub memory_Lawful : Lawful memory
memory_Lawful = record {
  holds = lookup;
  get_holds = λ p fs bytes e. found-some (lookup p fs) fs bytes e;
  get_finds = λ p fs e. found-none (lookup p fs) fs e;
  create_writes = λ p bytes fs e. created_new (lookup p fs) p bytes fs e;
  create_keeps = λ p bytes fs e. created_old (lookup p fs) p bytes fs refl e;
}

-- Stand-ins for the two hashes: the length, and the bytes themselves.
abbrev pub hashes : Hashes
hashes = record { sha256 = λ bytes. length bytes ∷ []; blake3 = λ bytes. bytes }

abbrev pub hex_encode : List ℕ → List ℕ
hex_encode [] = []
hex_encode (b ∷ bs) = (97 + b / 16) ∷ (97 + b % 16) ∷ hex_encode bs

abbrev pub in_memory : Backing
in_memory = record {
  objects = memory;
  hashes = hashes;
  hex_encode = hex_encode;
  uuid_text = λ id. (48 + id) ∷ [];
}
