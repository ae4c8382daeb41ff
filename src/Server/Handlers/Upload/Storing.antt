-- ===== src/Server/Handlers/Upload/Storing.antt =====
-- What a chunk that is taken has left behind.
use git_cdc.Common.{ℕ, not, ◌≡◌, ap, List, some, get_elem?, length, nat_eq, nat_eq_iff, ok}
use git_cdc.Core.Digest.{ObjectOid}
use git_cdc.Core.Manifest.{ObjectManifest, ChunkDescriptor}
use git_cdc.Server.Auth.Types.{write}
use git_cdc.Server.Error.{api_error, storage}
use git_cdc.Server.Handlers.Types.{Deployment, Request, enter}
use git_cdc.Server.Handlers.Types.Entering.{Entered, enter-Entered}
use git_cdc.Server.Handlers.Upload.{object_key, register_and_store_chunk, upload_cdc_chunk}
use git_cdc.Server.Service.{AppState, ok_or, transaction, shutting_down}
use git_cdc.Server.Service.Laws.{
  through, past, transaction-ok, on_store-ok, ok_or-ok, Reads-eq, Reads-transaction, Reads,
}
use git_cdc.Server.Upload.{load_open_upload, register_chunk}
use git_cdc.Server.Upload.Reading.{load_open_upload-Keeps}
use git_cdc.Storage.{put_verified}
use git_cdc.Storage.Integrity.{put_verified-blake3}

module _ (d : Deployment) where
  -- The chunk is registered by one transaction, and its bytes, which have its BLAKE3, are put into the
  -- store after that.
  abbrev pub Stored :
      ℕ
      → ℕ
      → ChunkDescriptor
      → List ℕ
      → AppState d.backing.objects.State
      → AppState d.backing.objects.State
      → Type 0
  Stored id upload_id c bytes s t =
      (register_chunk id upload_id c s.world.db ≡ ok (tt, t.world.db))
      × (put_verified d.backing id c.id bytes s.world.store ≡ (ok tt, t.world.store))
      × (d.backing.hashes.blake3 bytes ≡ c.id.bytes)

  pub register_and_store_chunk-Stored :
      (id upload_id : ℕ) (c : ChunkDescriptor) (bytes : List ℕ)
      (s t : AppState d.backing.objects.State)
      → register_and_store_chunk d id upload_id c bytes s ≡ (ok tt, t)
      → Stored id upload_id c bytes s t
  unfolding register_and_store_chunk
  register_and_store_chunk-Stored id upload_id c bytes s t h =
      through (transaction (register_chunk id upload_id c)) _ s h λ _ s1 e1 h1.
        let (registered, alike) = transaction-ok (register_chunk id upload_id c) s s1 tt e1 in
        let (put, kept) = on_store-ok storage (put_verified d.backing id c.id bytes) s1 t tt h1 in
        let stored : put_verified d.backing id c.id bytes s.world.store ≡ (ok tt, t.world.store) =
          rw alike at put in
        (
          cc,
          stored,
          put_verified-blake3 d.backing id c.id bytes s.world.store (ap (λ r. r.0) stored),
        )

  abbrev pub Taken :
      Request
      → ℕ
      → List ℕ
      → ℕ
      → ℕ
      → List ℕ
      → AppState d.backing.objects.State
      → AppState d.backing.objects.State
      → Type 0
  Taken request now oid upload_id index bytes s t =
      (o : ObjectOid) × (id : ℕ) × (m : ObjectManifest) × (c : ChunkDescriptor) × (v : AppState
        d.backing.objects.State)
      × Entered d request write oid s v o id
      × (load_open_upload now (object_key id o) upload_id s.world.db ≡ ok (m, s.world.db))
      × (get_elem? m.chunks index ≡ some c)
      × (length bytes ≡ c.length)
      × (d.backing.hashes.blake3 bytes ≡ c.id.bytes)
      × (register_chunk id upload_id c s.world.db ≡ ok (tt, t.world.db))

  -- A chunk that is taken was sent by a request that was admitted for writing, to a session that is
  -- open; its bytes have the length and the BLAKE3 of the session's manifest at that index, and the
  -- tables are those that registering this chunk for the session commits.
  pub upload_cdc_chunk-Taken :
      (request : Request) (now : ℕ) (oid : List ℕ) (upload_id index : ℕ) (bytes : List ℕ)
      (s t : AppState d.backing.objects.State)
      → upload_cdc_chunk d request now oid upload_id index bytes s ≡ (ok tt, t)
      → Taken request now oid upload_id index bytes s t
  unfolding upload_cdc_chunk
  upload_cdc_chunk-Taken request now oid upload_id index bytes s t h =
      past (not s.data_requests_closed) shutting_down _ s h λ _ h1.
        through (enter d request write oid) _ s h1 λ found s1 e1 h2.
          let key = object_key found.1 found.0 in
          through (transaction (load_open_upload now key upload_id)) _ s1 h2 λ m s2 e2 h3.
            through
              (ok_or (get_elem? m.chunks index)
                (api_error 404 "chunk index is outside the manifest"))
              _ s2 h3
              λ c s3 e3 h4.
                past (nat_eq (length bytes) c.length) (api_error 422 "chunk length mismatch") _ s3
                  h4
                  λ long h5.
                    through (register_and_store_chunk d found.1 upload_id c bytes) _ s3 h5
                      λ _ s4 e4 h6.
                        let entered = enter-Entered d request write oid s s1 found.0 found.1 e1 in
                        let same : s1.world.db ≡ s.world.db = entered.5 in
                        let query : Reads (transaction (load_open_upload now key upload_id)) =
                          Reads-transaction
                            (λ db. load_open_upload-Keeps (λ x. x ≡ db) now key upload_id) in
                        let kept2 = Reads-eq _ s1 s2 (ok m) query e2 in
                        let loaded =
                          (transaction-ok (load_open_upload now key upload_id) s1 s2 m e2).0 in
                        let picked = ok_or-ok _ _ s2 s3 c e3 in
                        let before : s3.world.db ≡ s.world.db = cc in
                        let end : s4.world.db ≡ t.world.db = cc in
                        let stored =
                          register_and_store_chunk-Stored found.1 upload_id c bytes s3 s4 e4 in
                        (
                          found.0,
                          found.1,
                          m,
                          c,
                          s1,
                          entered,
                          rw (kept2, same) at loaded,
                          picked.0,
                          (nat_eq_iff (length bytes) c.length).0 long,
                          stored.2,
                          rw (before, end) at stored.0,
                        )
