-- ===== src/Core/Stream/Steps.antt =====
-- Draining a stream, one item at a time.
use git_cdc.Common.{◌≡◌, refl, ap, List, [], ◌∷◌, ◌++◌, Result, ok, err, arith, ◌>>=◌}
use git_cdc.Core.Manifest.{ObjectManifest}
use git_cdc.Core.Profile.{ChunkingProfile}
use git_cdc.Core.Stream.{
  Hashes, Cdc, Item, Chunk, ChunkStream, CoreError, new, next_item, drain, completed_manifest,
  finish,
}

module _ (hashes : Hashes) where
  -- An item that gives a chunk adds its descriptor.
  pub next_item-descriptors :
      (item : Item) (s s' : ChunkStream) (chunk : Chunk)
      → next_item hashes item s ≡ (ok chunk, s')
      → s'.descriptors ≡ s.descriptors ++ (chunk.descriptor ∷ [])
  unfolding next_item
  next_item-descriptors (err message) s s' chunk h = absurd (cc)
  next_item-descriptors (ok raw) s s' chunk h = ground arith

  went_on :
      (r : Result Chunk CoreError × ChunkStream) (rest : List Item) (done : ChunkStream)
      → (r.0 >>= λ _. drain hashes rest r.1) ≡ ok done
      → (chunk : Chunk) × (r ≡ (ok chunk, r.1)) × (drain hashes rest r.1 ≡ ok done)
  went_on (ok chunk, s') rest done h = (chunk, refl, h)
  went_on (err e, s') rest done h = absurd (cc)

  -- A stream that drains to its end goes on after its first item.
  pub drain-cons :
      (item : Item) (rest : List Item) (s done : ChunkStream)
      → drain hashes (item ∷ rest) s ≡ ok done
      → (chunk : Chunk) × (s' : ChunkStream) × (next_item hashes item (record s { inner = rest })
          ≡ (ok chunk, s'))
        × (drain hashes rest s' ≡ ok done)
  unfolding drain
  drain-cons item rest s done h =
      let r = next_item hashes item (record s { inner = rest }) in
      let (chunk, made, more) = went_on r rest done h in (chunk, r.1, made, more)

  pub drain-nil :
      (s done : ChunkStream) → drain hashes [] s ≡ ok done → done.descriptors ≡ s.descriptors
  unfolding drain
  drain-nil s done h = cc

  completed :
      (r : Result ChunkStream CoreError) (m : ObjectManifest)
      → (r >>= λ done. ok (completed_manifest hashes done)) ≡ ok m
      → (done : ChunkStream) × (r ≡ ok done) × (m ≡ completed_manifest hashes done)
  completed (ok done) m h = (done, refl, cc)
  completed (err e) m h = absurd (cc)

  -- The chunks of a finished stream's manifest are the descriptors that it has gathered.
  pub finish-descriptors :
      (s : ChunkStream) (m : ObjectManifest)
      → finish hashes s ≡ ok m
      → (done : ChunkStream) × (drain hashes s.inner s ≡ ok done) × (m.chunks ≡ done.descriptors)
  unfolding finish completed_manifest
  finish-descriptors s m h =
      let (done, drained, same) = completed (drain hashes s.inner s) m h in
      (done, drained, ap (λ (x : ObjectManifest). x.chunks) same)

-- A new stream has gathered nothing.
pub new-descriptors :
    (c : Cdc) (reader : c.Reader) (profile : ChunkingProfile)
    → (new c reader profile).descriptors ≡ []
unfolding new
new-descriptors c reader profile = refl
