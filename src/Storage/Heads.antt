-- ===== src/Storage/Heads.antt =====
-- `exists` tells whether a chunk is held.
use git_cdc.Common.{ℕ, List, Bool, true, false, ◌≡◌, refl, Option, none, some, Result, ok, err}
use git_cdc.Core.Digest.{ChunkId}
use git_cdc.Storage.{
  ObjectStore, ProviderError, not_found, already_exists, other, Backing, chunk_path, exists_result,
  exists,
}
use git_cdc.Storage.Integrity.{Lawful}

-- What the `object_store` crate documents of `head`: it finds what a path holds, and writes nothing.
pub record LawfulHead (o : ObjectStore) (lawful : Lawful o) : Type 0 where
  pub head_holds :
      (p : o.ObjectPath) (s : o.State)
      → (o.head p s).0 ≡ ok tt
      → (bytes : List ℕ) × (lawful.holds p s ≡ some bytes)
  pub head_misses :
      (p : o.ObjectPath) (s : o.State) → (o.head p s).0 ≡ err not_found → lawful.holds p s ≡ none
  pub head_keeps :
      (p q : o.ObjectPath) (s : o.State) → lawful.holds q (o.head p s).1 ≡ lawful.holds q s

abbrev pub is_some : Option (List ℕ) → Bool
is_some none = false
is_some (some x) = true

module _ (b : Backing) (lawful : Lawful b.objects) (heads : LawfulHead b.objects lawful) where
  -- Is the chunk held?
  abbrev pub is_held : ℕ → ChunkId → b.objects.State → Bool
  is_held repository_id id s = is_some (lawful.holds (chunk_path b repository_id id) s)

  told :
      (r : Result (Unit {0}) ProviderError) (s t v : b.objects.State) (o : Option (List ℕ))
      (found : Bool)
      → (r ≡ ok tt → (bytes : List ℕ) × (o ≡ some bytes))
      → (r ≡ err not_found → o ≡ none)
      → exists_result b (r, s) ≡ (ok found, t)
      → (found ≡ is_some o) × (t ≡ s)
  unfolding exists_result
  told (ok _) s t v o found h k e = let (bytes, held) = h refl in (rw held (cc), cc)
  told (err not_found) s t v o found h k e = (rw (k refl) (cc), cc)
  told (err already_exists) s t v o found h k e = absurd (cc)
  told (err other) s t v o found h k e = absurd (cc)

  -- `exists` answers yes exactly if the chunk is held, and every path holds what it held.
  pub exists-told :
      (repository_id : ℕ) (id : ChunkId) (s t : b.objects.State) (found : Bool)
      → exists b repository_id id s ≡ (ok found, t)
      → (found ≡ is_held repository_id id s)
        × ((q : b.objects.ObjectPath) → lawful.holds q t ≡ lawful.holds q s)
  unfolding exists
  exists-told repository_id id s t found e =
      let path = chunk_path b repository_id id in
      let (answer, same) =
        told (b.objects.head path s).0 (b.objects.head path s).1 t s (lawful.holds path s) found
          (heads.head_holds path s) (heads.head_misses path s) e in
      (answer, λ q. rw same (heads.head_keeps path q s))
