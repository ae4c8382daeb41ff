-- ===== src/Server/Handlers/Basic/Uploading.antt =====
-- What a basic upload that succeeds has done.
use git_cdc.Common.{
  ℕ, Bool, not, ◌≡◌, ◌≤◌, sym, ap, ◌∙◌, List, [], ◌∷◌, ◌++◌, ◌==◌, Option, length, arith, ok,
  map_err, if◌then◌else◌,
}
use mathlib.Core.List.{append_assoc, append-nil}
use git_cdc.Core.Digest.{ObjectOid, object_oid_Eq, object_oid_eq_iff}
use git_cdc.Core.Manifest.{ObjectManifest, ChunkDescriptor, max_object_size}
use git_cdc.Core.Profile.{fast_cdc_v1}
use git_cdc.Core.Stream.{Item, Chunk, ChunkStream, new, next_item, drain, finish}
use git_cdc.Core.Stream.Steps.{
  next_item-descriptors, drain-cons, drain-nil, finish-descriptors, new-descriptors,
}
use git_cdc.Server.Auth.Types.{write}
use git_cdc.Server.Error.{api_error, integrity}
use git_cdc.Server.Handlers.Basic.{
  Body, too_long, announces_too_long, copy_body, unprocessable, ensure_upload_session, store_chunks,
  upload_staged, upload_basic,
}
use git_cdc.Server.Handlers.Types.{Deployment, Request, enter}
use git_cdc.Server.Handlers.Types.Entering.{enter-Entered}
use git_cdc.Server.Handlers.Upload.{
  object_key, register_and_store_chunk, add_uploaded, add_received,
}
use git_cdc.Server.Handlers.Upload.Storing.{register_and_store_chunk-Stored}
use git_cdc.Server.Publish.{publish_manifest}
use git_cdc.Server.Schema.{Db, UploadSession}
use git_cdc.Server.Service.{
  AppState, ◌>>◌, respond, count, pure, transaction, file_operation, shutting_down,
}
use git_cdc.Server.Service.Laws.{
  through, past, map_err-ok, transaction-ok, Reads-eq, Reads, Reads->>, Reads-if, Reads-pure,
  Reads-count, Reads-file_operation,
}
use git_cdc.Server.Upload.{open_session, register_chunk}

module _ (d : Deployment) where
  -- The chunks' registrations, one transaction after the other.
  abbrev pub Registered : ℕ → ℕ → List ChunkDescriptor → Db → Db → Type 0
  Registered id upload_id [] before after = after ≡ before
  Registered id upload_id (c ∷ cs) before after =
      (next : Db) × (register_chunk id upload_id c before ≡ ok (tt, next))
      × Registered id upload_id cs next after

  Registered-eq :
      (id upload_id upload_id' : ℕ) (cs cs' : List ChunkDescriptor) (before before' after : Db)
      → upload_id ≡ upload_id'
      → cs ≡ cs'
      → before' ≡ before
      → Registered id upload_id' cs' before' after
      → Registered id upload_id cs before after
  Registered-eq id upload_id upload_id' cs cs' before before' after e f g r = rw (e, f, ← g) r

  store_chunks-cons :
      (id upload_id : ℕ) (item : Item) (rest : List Item) (stream stream' : ChunkStream)
      (chunk : Chunk) (s t : AppState d.backing.objects.State)
      → next_item d.backing.hashes item (record stream { inner = rest }) ≡ (ok chunk, stream')
      → store_chunks d id upload_id (item ∷ rest) stream s ≡ (ok tt, t)
      → (register_and_store_chunk d id upload_id chunk.descriptor chunk.bytes
            >> store_chunks d id upload_id rest stream')
          s
        ≡ (ok tt, t)
  unfolding store_chunks
  store_chunks-cons id upload_id item rest stream stream' chunk s t e h =
      rw (e, store_chunks, ap (λ r. r.1) e) at h

  -- The chunks that a stream still has, with what it has gathered, make up its descriptors.
  store_chunks-Registered :
      (id upload_id : ℕ) (items : List Item) (stream done : ChunkStream)
      (s t : AppState d.backing.objects.State)
      → drain d.backing.hashes items stream ≡ ok done
      → store_chunks d id upload_id items stream s ≡ (ok tt, t)
      → (cs : List ChunkDescriptor) × (done.descriptors ≡ stream.descriptors ++ cs)
        × Registered id upload_id cs s.world.db t.world.db
  unfolding store_chunks
  store_chunks-Registered id upload_id [] stream done s t e h =
      ([], drain-nil d.backing.hashes stream done e ∙ sym (append-nil stream.descriptors), cc)
  store_chunks-Registered id upload_id (item ∷ rest) stream done s t e h =
      let (chunk, stream', made, more) = drain-cons d.backing.hashes item rest stream done e in
      through (register_and_store_chunk d id upload_id chunk.descriptor chunk.bytes) _ s
        (store_chunks-cons id upload_id item rest stream stream' chunk s t made h)
        λ _ s1 e1 h1.
          let stored =
            register_and_store_chunk-Stored d id upload_id chunk.descriptor chunk.bytes s s1 e1 in
          let (cs, gathered, registered) =
            store_chunks-Registered id upload_id rest stream' done s1 t more h1 in
          let added = next_item-descriptors d.backing.hashes item _ stream' chunk made in
          (
            chunk.descriptor ∷ cs,
            gathered
                ∙ ap (λ (x : List ChunkDescriptor). x ++ cs) added
                ∙ append_assoc stream.descriptors (chunk.descriptor ∷ []) cs,
            (s1.world.db, stored.0, registered),
          )

  -- The session is opened, the chunks are registered, and the manifest is published.
  abbrev pub Uploaded : ℕ → ℕ → ℕ → ℕ → ObjectManifest → Db → Db → Type 0
  Uploaded now later fresh id m before after =
      (session : UploadSession) × (opened : Db) × (registered : Db) × (inserted : Bool)
      × (open_session integrity now fresh (object_key id m.object_oid) m before
          ≡ ok (session, opened))
      × Registered id session.id m.chunks opened registered
      × (publish_manifest later id session.id m registered ≡ ok (inserted, after))

  ensure_upload_session-ok :
      (now fresh id : ℕ) (m : ObjectManifest) (s t : AppState d.backing.objects.State)
      (upload_id : ℕ)
      → ensure_upload_session d now fresh id m s ≡ (ok upload_id, t)
      → (session : UploadSession) × (session.id ≡ upload_id)
        × (open_session integrity now fresh (object_key id m.object_oid) m s.world.db
            ≡ ok (session, t.world.db))
  unfolding ensure_upload_session
  ensure_upload_session-ok now fresh id m s t upload_id h =
      through (transaction (open_session integrity now fresh (object_key id m.object_oid) m)) _ s h
        λ session s1 e1 h1.
          let opened =
            (transaction-ok (open_session integrity now fresh (object_key id m.object_oid) m) s s1
              session e1).0 in
          (session, cc, cc)

  counting-Reads :
      (b : Bool) (n : ℕ)
      → Reads {S = d.backing.objects.State}
          ((if b then count (add_uploaded n) else pure tt) >> count (add_received n))
  counting-Reads b n = Reads->> (Reads-if b (Reads-count _) (Reads-pure _)) (Reads-count _)

  upload_staged-Uploaded :
      (now later fresh id : ℕ) (m : ObjectManifest) (stream : ChunkStream)
      (s t : AppState d.backing.objects.State)
      → stream.descriptors ≡ []
      → finish d.backing.hashes stream ≡ ok m
      → upload_staged d now later fresh id m stream s ≡ (ok tt, t)
      → Uploaded now later fresh id m s.world.db t.world.db
  unfolding upload_staged
  upload_staged-Uploaded now later fresh id m stream s t empty finished h =
      through (ensure_upload_session d now fresh id m) _ s h λ upload_id s1 e1 h1.
        through file_operation _ s1 h1 λ _ s2 e2 h2.
          through (store_chunks d id upload_id stream.inner stream) _ s2 h2 λ _ s3 e3 h3.
            through (transaction (publish_manifest later id upload_id m)) _ s3 h3
              λ inserted s4 e4 h4.
                let (session, named, opened) =
                  ensure_upload_session-ok now fresh id m s s1 upload_id e1 in
                let (done, drained, listed) =
                  finish-descriptors d.backing.hashes stream m finished in
                let (cs, gathered, registered) =
                  store_chunks-Registered id upload_id stream.inner stream done s2 s3 drained e3 in
                let all : m.chunks ≡ cs =
                  listed ∙ gathered ∙ ap (λ (x : List ChunkDescriptor). x ++ cs) empty in
                let kept = Reads-eq _ s1 s2 (ok tt) Reads-file_operation e2 in
                let published =
                  (transaction-ok (publish_manifest later id upload_id m) s3 s4 inserted e4).0 in
                let end = Reads-eq _ s4 t (ok tt) (counting-Reads inserted m.object_size) h4 in
                (
                  session,
                  s1.world.db,
                  s3.world.db,
                  inserted,
                  opened,
                  Registered-eq id session.id upload_id m.chunks cs s1.world.db s2.world.db
                      s3.world.db named all kept registered,
                  cc,
                )

  copy_body-ok :
      (body : Body) (bytes : List ℕ)
      → copy_body body ≡ ok bytes
      → (bytes ≡ body.bytes) × (length body.bytes ≤ max_object_size)
  unfolding copy_body
  copy_body-ok body bytes h = ground arith

  -- What `upload_basic` has done when it succeeds.
  abbrev pub BasicUpload : Request → ℕ → ℕ → ℕ → List ℕ → Body → Db → Db → Type 0
  BasicUpload request now later fresh oid body before after =
      (o : ObjectOid) × (id : ℕ) × (m : ObjectManifest) × (length body.bytes ≤ max_object_size)
      × (finish d.backing.hashes (new d.cdc (d.staged body.bytes) fast_cdc_v1) ≡ ok m)
      × (m.object_oid ≡ o)
      × Uploaded now later fresh id m before after

  -- A basic upload that succeeds has a body within the object limit, whose chunk stream finishes with
  -- a manifest of the oid asked for; the tables are what these transactions commit, one after the
  -- other: opening a session for that manifest, registering each of its chunks in order, and
  -- publishing it.
  pub upload_basic-BasicUpload :
      (request : Request) (now later fresh : ℕ) (oid : List ℕ) (content_length : Option ℕ)
      (body : Body) (s t : AppState d.backing.objects.State)
      → upload_basic d request now later fresh oid content_length body s ≡ (ok tt, t)
      → BasicUpload request now later fresh oid body s.world.db t.world.db
  unfolding upload_basic
  upload_basic-BasicUpload request now later fresh oid content_length body s t h =
      through (enter d request write oid) _ s h λ found s1 e1 h1.
        past (not (announces_too_long content_length)) too_long _ s1 h1 λ _ h2.
          past (not s1.basic_transfers_closed) shutting_down _ s1 h2 λ _ h3.
            through file_operation _ s1 h3 λ _ s2 e2 h4.
              through file_operation _ s2 h4 λ _ s3 e3 h5.
                through file_operation _ s3 h5 λ _ s4 e4 h6.
                  through file_operation _ s4 h6 λ _ s5 e5 h7.
                    through (respond (copy_body body)) _ s5 h7 λ bytes s6 e6 h8.
                      through file_operation _ s6 h8 λ _ s7 e7 h9.
                        through file_operation _ s7 h9 λ _ s8 e8 h10.
                          let stream = new d.cdc (d.staged bytes) fast_cdc_v1 in
                          through (respond (map_err unprocessable (finish d.backing.hashes stream)))
                            _ s8 h10
                            λ m s9 e9 h11.
                              past (m.object_oid == found.0)
                                (api_error 422
                                  "uploaded bytes do not match the requested object OID")
                                _ s9 h11
                                λ same h12.
                                  let entered =
                                    enter-Entered d request write oid s s1 found.0 found.1 e1 in
                                  let k2 = Reads-eq _ s1 s2 (ok tt) Reads-file_operation e2 in
                                  let k3 = Reads-eq _ s2 s3 (ok tt) Reads-file_operation e3 in
                                  let k4 = Reads-eq _ s3 s4 (ok tt) Reads-file_operation e4 in
                                  let k5 = Reads-eq _ s4 s5 (ok tt) Reads-file_operation e5 in
                                  let k7 = Reads-eq _ s6 s7 (ok tt) Reads-file_operation e7 in
                                  let k8 = Reads-eq _ s7 s8 (ok tt) Reads-file_operation e8 in
                                  let (copied, short) = copy_body-ok body bytes (cc e6) in
                                  let finished =
                                    map_err-ok unprocessable (finish d.backing.hashes stream) m
                                      (cc e9) in
                                  let before : s9.world.db ≡ s.world.db = cc in
                                  let uploaded =
                                    upload_staged-Uploaded now later fresh found.1 m stream s9 t
                                      (new-descriptors d.cdc _ _) finished h12 in
                                  (
                                    found.0,
                                    found.1,
                                    m,
                                    short,
                                    rw copied at finished,
                                    (object_oid_eq_iff m.object_oid found.0).0 same,
                                    rw before at uploaded,
                                  )
