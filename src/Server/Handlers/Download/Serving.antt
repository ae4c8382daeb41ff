-- ===== src/Server/Handlers/Download/Serving.antt =====
-- What a download that succeeds has served.
use git_cdc.Common.{
  ℕ, ◌≡◌, ap, subst, List, [], ◌∷◌, length, nat_eq, nat_eq_iff, list_eq, list_eq_iff, arith, ok,
  map_err, not,
}
use git_cdc.Core.Digest.{ObjectOid}
use git_cdc.Core.Manifest.{ChunkDescriptor, ObjectManifest, ManifestError, validate}
use git_cdc.Core.Manifest.Coverage.{IsValid, validate_iff}
use git_cdc.Server.Auth.Types.{read}
use git_cdc.Server.Error.{integrity, storage}
use git_cdc.Server.Handlers.Assembled.{Assembled, Assembled-length}
use git_cdc.Server.Handlers.Types.{Deployment, Request, enter}
use git_cdc.Server.Handlers.Types.Entering.{Entered, enter-Entered}
use git_cdc.Server.Handlers.Upload.{object_key}
use git_cdc.Server.Handlers.Upload.Assembling.{get_verified-blake3}
use git_cdc.Server.Handlers.Download.{Download, reconstruct, stage_object, download_basic}
use git_cdc.Server.Handlers.Download.Reading.{download_basic-Reads, load_manifest-Reads}
use git_cdc.Server.Lookup.{load_manifest}
use git_cdc.Server.Service.{AppState, on_store, file_operation, transaction, respond, shutting_down}
use git_cdc.Server.Service.Laws.{map_err-ok, through, past, transaction-ok, Reads-eq}
use git_cdc.Storage.{get_verified}

module _ (d : Deployment) where
  reconstruct-Assembled :
      (id : ℕ) (cs : List ChunkDescriptor) (s t : AppState d.backing.objects.State) (bytes : List ℕ)
      → reconstruct d id cs s ≡ (ok bytes, t)
      → Assembled d.backing.hashes.blake3 cs bytes
  unfolding reconstruct
  reconstruct-Assembled id [] s t bytes h = cc
  reconstruct-Assembled id (c ∷ cs) s t bytes h =
      through (on_store storage (get_verified d.backing id c.id)) _ s h λ first s1 got h1.
        past (nat_eq (length first) c.length) integrity _ s1 h1 λ tested h2.
          through file_operation _ s1 h2 λ _ s2 written h3.
            through (reconstruct d id cs) _ s2 h3 λ rest s3 more h4. (
              first,
              rest,
              cc,
              get_verified-blake3 d storage id c s s1 first got,
              (nat_eq_iff (length first) c.length).0 tested,
              reconstruct-Assembled id cs s2 s3 rest more,
            )

  -- The bytes of an object: its chunks' bytes, whose SHA-256 is the oid.
  abbrev pub Whole : ObjectOid → ObjectManifest → List ℕ → Type 0
  Whole o m bytes =
      Assembled d.backing.hashes.blake3 m.chunks bytes × (d.backing.hashes.sha256 bytes ≡ o.bytes)

  stage_object-Whole :
      (o : ObjectOid) (id : ℕ) (m : ObjectManifest) (s t : AppState d.backing.objects.State)
      (bytes : List ℕ)
      → stage_object d o id m s ≡ (ok bytes, t)
      → Whole o m bytes
  unfolding stage_object
  stage_object-Whole o id m s t bytes h = through file_operation _ s h λ _ s1 _ h1.
      through file_operation _ s1 h1 λ _ s2 _ h2.
        through (reconstruct d id m.chunks) _ s2 h2 λ made s3 e3 h3.
          past (list_eq (d.backing.hashes.sha256 made) o.bytes) integrity _ s3 h3 λ tested h4.
            through file_operation _ s3 h4 λ _ s4 e4 h5.
              let same : made ≡ bytes = cc in
              (
                rw same at (reconstruct-Assembled id m.chunks s2 s3 made e3),
                (list_eq_iff (d.backing.hashes.sha256 bytes) o.bytes).0 (rw same at tested),
              )

  -- What `download_basic` answers when it succeeds: a request that has entered with an oid gets the
  -- bytes of the object that the tables name, as many as the content length says.
  abbrev pub Served :
      Request
      → List ℕ
      → AppState d.backing.objects.State
      → AppState d.backing.objects.State
      → Download
      → Type 0
  Served request oid s t r =
      (o : ObjectOid) × (id : ℕ) × (m : ObjectManifest) × (v : AppState d.backing.objects.State)
      × Entered d request read oid s v o id
      × (load_manifest (object_key id o) s.world.db ≡ ok (m, s.world.db))
      × IsValid m
      × Whole o m r.body
      × (r.content_length ≡ m.object_size)
      × (length r.body ≡ r.content_length)
      × (t.world.db ≡ s.world.db)

  -- A download that succeeds has served the object's own bytes: the request was admitted for reading,
  -- the manifest is the object's row's and valid, the body is put together from chunks with the
  -- manifest's lengths and BLAKE3 ids, its SHA-256 is the oid asked for and its length the content
  -- length; the tables are as they were.
  pub download_basic-Served :
      (request : Request) (oid : List ℕ) (s t : AppState d.backing.objects.State) (r : Download)
      → download_basic d request oid s ≡ (ok r, t)
      → Served request oid s t r
  unfolding download_basic
  download_basic-Served request oid s t r h =
      let kept =
        Reads-eq (download_basic d request oid) s t (ok r) (download_basic-Reads d request oid) h in
      through (enter d request read oid) _ s h λ found s1 e1 h1.
        past (not s1.basic_transfers_closed) shutting_down _ s1 h1 λ _ h2.
          through (transaction (load_manifest (object_key found.1 found.0))) _ s1 h2 λ m s2 e2 h3.
            through (respond (map_err (λ _. integrity) (validate m))) _ s2 h3 λ _ s3 e3 h4.
              through (stage_object d found.0 found.1 m) _ s3 h4 λ body s4 e4 h5.
                let entered = enter-Entered d request read oid s s1 found.0 found.1 e1 in
                let same : s1.world.db ≡ s.world.db = entered.5 in
                let kept1 =
                  Reads-eq _ s1 s2 (ok m) (load_manifest-Reads d (object_key found.1 found.0)) e2 in
                let loaded =
                  (transaction-ok (load_manifest (object_key found.1 found.0)) s1 s2 m e2).0 in
                let looked : load_manifest (object_key found.1 found.0) s.world.db
                    ≡ ok (m, s.world.db) =
                  rw (kept1, same) at loaded in
                let refusal = λ (e : ManifestError). integrity in
                let valid = (validate_iff m).0 (map_err-ok refusal (validate m) tt (cc e3)) in
                let whole = stage_object-Whole found.0 found.1 m s3 s4 body e4 in
                let made : record { content_length = m.object_size; body = body } ≡ r = cc in
                let long =
                  Assembled-length d.backing.hashes.blake3 0 m.object_size m.chunks body
                    valid.covered whole.0 in
                (
                  found.0,
                  found.1,
                  m,
                  s1,
                  entered,
                  looked,
                  valid,
                  subst (λ (x : Download). Whole found.0 m x.body) made whole,
                  cc,
                  omega (
                    arith,
                    long,
                    ap (λ (x : Download). length x.body) made,
                    ap (λ (x : Download). x.content_length) made,
                  ),
                  kept,
                )
