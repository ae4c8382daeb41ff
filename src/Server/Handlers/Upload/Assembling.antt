-- ===== src/Server/Handlers/Upload/Assembling.antt =====
-- What the hasher is fed is what the descriptors say.
use git_cdc.Common.{ℕ, ◌≡◌, ap, List, [], ◌∷◌, length, nat_eq, nat_eq_iff, ok}
use git_cdc.Core.Manifest.{ChunkDescriptor}
use git_cdc.Server.Error.{ApiError, integrity}
use git_cdc.Server.Handlers.Assembled.{Assembled}
use git_cdc.Server.Handlers.Types.{Deployment}
use git_cdc.Server.Handlers.Upload.{assemble}
use git_cdc.Server.Service.{AppState, on_store}
use git_cdc.Server.Service.Laws.{through, past, on_store-ok}
use git_cdc.Storage.{StorageError, get_verified}
use git_cdc.Storage.Integrity.{get_verified_iff}

module _ (d : Deployment) where
  -- A chunk that the store gives has the BLAKE3 of its id.
  pub get_verified-blake3 :
      (convert : StorageError → ApiError) (id : ℕ) (c : ChunkDescriptor)
      (s t : AppState d.backing.objects.State) (bytes : List ℕ)
      → on_store convert (get_verified d.backing id c.id) s ≡ (ok bytes, t)
      → d.backing.hashes.blake3 bytes ≡ c.id.bytes
  get_verified-blake3 convert id c s t bytes h =
      let e = (on_store-ok convert (get_verified d.backing id c.id) s t bytes h).0 in
      ((get_verified_iff d.backing id c.id s.world.store bytes).0 (ap (λ r. r.0) e)).1

  pub assemble-Assembled :
      (convert : StorageError → ApiError) (id : ℕ) (cs : List ChunkDescriptor)
      (s t : AppState d.backing.objects.State) (bytes : List ℕ)
      → assemble d convert id cs s ≡ (ok bytes, t)
      → Assembled d.backing.hashes.blake3 cs bytes
  unfolding assemble
  assemble-Assembled convert id [] s t bytes h = cc
  assemble-Assembled convert id (c ∷ cs) s t bytes h =
      through (on_store convert (get_verified d.backing id c.id)) _ s h λ first s1 got h1.
        past (nat_eq (length first) c.length) integrity _ s1 h1 λ tested h2.
          through (assemble d convert id cs) _ s1 h2 λ rest s2 more h3. (
            first,
            rest,
            cc,
            get_verified-blake3 convert id c s s1 first got,
            (nat_eq_iff (length first) c.length).0 tested,
            assemble-Assembled convert id cs s1 s2 rest more,
          )
