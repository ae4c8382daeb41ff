-- ===== src/Server/Handlers/Upload/Planning.antt =====
-- The plan that `begin_cdc` answers: which chunks are to be sent.
use git_cdc.Common.{
  ℕ, suc, ◌^◌, true, ◌≡◌, sym, ap, ◌∙◌, List, [], ◌∷◌, ◌==◌, nat_eq, nat_eq_iff, ltb, ok, map_err,
  if◌then◌else◌,
}
use git_cdc.Core.Digest.{ObjectOid, object_oid_Eq, object_oid_eq_iff}
use git_cdc.Core.Manifest.{ObjectManifest, ChunkDescriptor, validate}
use git_cdc.Core.Manifest.Coverage.{IsValid, validate_iff}
use git_cdc.Protocol.Messages.{BeginUploadRequest, BeginUploadResponse}
use git_cdc.Server.Auth.Types.{write}
use git_cdc.Server.Error.{ApiError, api_error, storage, manifest_text}
use git_cdc.Server.Service.Laws.{map_err-ok}
use git_cdc.Server.Handlers.Types.{Deployment, Request, admit}
use git_cdc.Server.Handlers.Types.Reading.{admit-Reads, repository_id-Reads}
use git_cdc.Server.Handlers.Upload.{object_key, missing_from, begin_cdc, too_large}
use git_cdc.Server.Handlers.Upload.Reading.{missing_from-Reads}
use git_cdc.Server.Lookup.{parse_oid, repository_id}
use git_cdc.Server.Schema.{UploadSession}
use git_cdc.Server.Service.{AppState, respond, on_store, transaction}
use git_cdc.Server.Service.Laws.{through, past, on_store-ok, transaction-ok, Reads-eq}
use git_cdc.Server.Upload.{open_session}
use git_cdc.Storage.{exists, chunk_path}
use git_cdc.Storage.Integrity.{Lawful}
use git_cdc.Storage.Heads.{LawfulHead, is_held, is_some, exists-told}

module _ (d : Deployment) (lawful : Lawful d.backing.objects)
    (heads : LawfulHead d.backing.objects lawful) where
  -- The indexes of the chunks that are not held, in order.
  abbrev pub absent_from : d.backing.objects.State → ℕ → ℕ → List ChunkDescriptor → List ℕ
  absent_from s id index [] = []
  absent_from s id index (c ∷ cs) =
      if is_held d.backing lawful heads id c.id s
      then absent_from s id (suc index) cs
      else index ∷ absent_from s id (suc index) cs

  missing_from-holds :
      (id index : ℕ) (cs : List ChunkDescriptor) (s t : AppState d.backing.objects.State)
      (missing : List ℕ) (q : d.backing.objects.ObjectPath)
      → missing_from d id index cs s ≡ (ok missing, t)
      → lawful.holds q t.world.store ≡ lawful.holds q s.world.store
  unfolding missing_from
  missing_from-holds id index [] s t missing q h = cc
  missing_from-holds id index (c ∷ cs) s t missing q h =
      through (on_store storage (exists d.backing id c.id)) _ s h λ found s1 e1 h1.
        past (if found then true else ltb index (2 ^ 32))
          (api_error 422 "manifest has too many chunks") _ s1 h1
          λ _ h2. through (missing_from d id (suc index) cs) _ s1 h2 λ rest s2 e2 h3.
            let asked = (on_store-ok storage (exists d.backing id c.id) s s1 found e1).0 in
            let kept =
              (exists-told d.backing lawful heads id c.id s.world.store s1.world.store found
                  asked).1
                q in
            let ih = missing_from-holds id (suc index) cs s1 s2 rest q e2 in
            let same : s2 ≡ t = cc in rw same at ih ∙ kept

  missing_from-absent :
      (id index : ℕ) (cs : List ChunkDescriptor) (s t : AppState d.backing.objects.State)
      (missing : List ℕ)
      → missing_from d id index cs s ≡ (ok missing, t)
      → missing ≡ absent_from t.world.store id index cs
  unfolding missing_from
  missing_from-absent id index [] s t missing h = cc
  missing_from-absent id index (c ∷ cs) s t missing h =
      through (on_store storage (exists d.backing id c.id)) _ s h λ found s1 e1 h1.
        past (if found then true else ltb index (2 ^ 32))
          (api_error 422 "manifest has too many chunks") _ s1 h1
          λ _ h2. through (missing_from d id (suc index) cs) _ s1 h2 λ rest s2 e2 h3.
            let asked = (on_store-ok storage (exists d.backing id c.id) s s1 found e1).0 in
            let told =
              exists-told d.backing lawful heads id c.id s.world.store s1.world.store found asked in
            let path = chunk_path d.backing id c.id in
            let later = missing_from-holds id (suc index) cs s1 s2 rest path e2 in
            let same : s2 ≡ t = cc in
            let ih : rest ≡ absent_from t.world.store id (suc index) cs =
              rw same at (missing_from-absent id (suc index) cs s1 s2 rest e2) in
            let answer : found ≡ is_held d.backing lawful heads id c.id t.world.store =
              rw same at (told.0 ∙ ap is_some (sym (later ∙ told.1 path))) in
            let picked : missing ≡ (if found then rest else index ∷ rest) = cc in
            picked ∙ (λ i. if answer i then ih i else index ∷ ih i)

  -- What `begin_cdc` answers when it succeeds: the session that holds the request's valid manifest,
  -- and the chunks that the store does not hold.
  abbrev pub Planned :
      Request
      → ℕ
      → ℕ
      → List ℕ
      → BeginUploadRequest
      → AppState d.backing.objects.State
      → AppState d.backing.objects.State
      → BeginUploadResponse
      → Type 0
  Planned request now fresh oid body s t r =
      (o : ObjectOid) × (id : ℕ) × (session : UploadSession) × (parse_oid d.hex d.digest_text oid
        ≡ ok o)
      × (body.protocol_version ≡ 1)
      × IsValid body.manifest
      × (body.manifest.object_oid ≡ o)
      × (repository_id request.owner request.repository s.world.db ≡ ok (id, s.world.db))
      × (open_session too_large now fresh (object_key id o) body.manifest s.world.db
          ≡ ok (session, t.world.db))
      × (r.upload_id ≡ session.id)
      × (r.expires_at ≡ session.expires_at)
      × (r.missing_chunk_indexes ≡ absent_from t.world.store id 0 body.manifest.chunks)

  IsValid-of_ok :
      (m : ObjectManifest)
      → map_err {F = ApiError}
          (λ e. record { status = 422; message = manifest_text e })
          (validate m)
        ≡ ok tt
      → IsValid m
  IsValid-of_ok m h =
      (validate_iff m).0
        (map_err-ok (λ e. record { status = 422; message = manifest_text e }) (validate m) tt h)

  -- An upload that begins has a valid manifest of the object asked for, in the session that the tables
  -- have opened or prolonged, and its plan lists the chunks that the store does not hold when it
  -- answers: those and no others, by their indexes in the manifest, in order.
  pub begin_cdc-Planned :
      (request : Request) (now fresh : ℕ) (oid : List ℕ) (body : BeginUploadRequest)
      (s t : AppState d.backing.objects.State) (r : BeginUploadResponse)
      → begin_cdc d request now fresh oid body s ≡ (ok r, t)
      → Planned request now fresh oid body s t r
  unfolding begin_cdc
  begin_cdc-Planned request now fresh oid body s t r h =
      through (admit d request write) _ s h λ identity s1 e1 h1.
        through (respond (parse_oid d.hex d.digest_text oid)) _ s1 h1 λ o s2 e2 h2.
          past (nat_eq body.protocol_version 1) (api_error 400 "unsupported CDC protocol version") _
            s2 h2
            λ version h3.
              through
                (respond (
                  map_err (λ e. record { status = 422; message = manifest_text e })
                    (validate body.manifest)))
                _ s2 h3
                λ _ s3 e3 h4.
                  past (body.manifest.object_oid == o)
                    (api_error 422 "manifest OID does not match the requested object OID") _ s3 h4
                    λ same_oid h5.
                      through (transaction (repository_id request.owner request.repository)) _ s3 h5
                        λ id s4 e4 h6.
                          through
                            (transaction
                              (open_session too_large now fresh (object_key id o) body.manifest))
                            _ s4 h6
                            λ session s5 e5 h7.
                              through (missing_from d id 0 body.manifest.chunks) _ s5 h7
                                λ missing s6 e6 h8.
                                  let kept1 =
                                    Reads-eq _ s s1 (ok identity) (admit-Reads d request write)
                                      e1 in
                                  let kept4 =
                                    Reads-eq _ s3 s4 (ok id) (repository_id-Reads d request) e4 in
                                  let found =
                                    (transaction-ok (repository_id request.owner request.repository)
                                      s3 s4 id e4).0 in
                                  let opened =
                                    (transaction-ok
                                      (open_session too_large now fresh (object_key id o)
                                        body.manifest)
                                      s4 s5 session e5).0 in
                                  let kept6 =
                                    Reads-eq _ s5 s6 (ok missing)
                                      (missing_from-Reads d id 0 body.manifest.chunks) e6 in
                                  let plan =
                                    missing_from-absent id 0 body.manifest.chunks s5 s6 missing
                                      e6 in
                                  let end : s6 ≡ t = cc in
                                  let before : s3.world.db ≡ s.world.db = cc in
                                  (
                                    o,
                                    id,
                                    session,
                                    cc,
                                    (nat_eq_iff body.protocol_version 1).0 version,
                                    IsValid-of_ok body.manifest (cc e3),
                                    (object_oid_eq_iff body.manifest.object_oid o).0 same_oid,
                                    rw (kept4, before) at found,
                                    rw (kept4, before, ← kept6, end) at opened,
                                    cc,
                                    cc,
                                    cc (rw end at plan),
                                  )
