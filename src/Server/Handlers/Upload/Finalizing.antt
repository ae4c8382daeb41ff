-- ===== src/Server/Handlers/Upload/Finalizing.antt =====
-- What a finalization that succeeds has done.
use git_cdc.Common.{
  ℕ, Bool, true, false, not, ◌≡◌, List, ◌⊎◌, inl, inr, list_eq, list_eq_iff, ok, Bool-cases,
  if◌then◌else◌,
}
use git_cdc.Core.Digest.{ObjectOid}
use git_cdc.Core.Manifest.{ObjectManifest}
use git_cdc.Server.Auth.Types.{write}
use git_cdc.Server.Error.{api_error}
use git_cdc.Server.Handlers.Assembled.{Assembled}
use git_cdc.Server.Handlers.Types.{Deployment, Request, enter}
use git_cdc.Server.Handlers.Types.Entering.{Entered, enter-Entered}
use git_cdc.Server.Handlers.Upload.{
  object_key, assemble, missing_conflicts, finalize_open, finalize_cdc, add_uploaded,
}
use git_cdc.Server.Handlers.Upload.Assembling.{assemble-Assembled}
use git_cdc.Server.Handlers.Upload.Reading.{assemble-Reads, load_finalizable_upload-Reads}
use git_cdc.Server.Publish.{publish_manifest}
use git_cdc.Server.Schema.{Db}
use git_cdc.Server.Service.{AppState, pure, count, transaction, shutting_down}
use git_cdc.Server.Service.Laws.{
  through, past, transaction-ok, Reads-eq, Reads, Reads-if, Reads-pure, Reads-count,
}
use git_cdc.Server.Upload.{load_finalizable_upload}

module _ (d : Deployment) where
  -- The manifest's chunks, as the store gave them, add up to bytes whose SHA-256 is the oid, and the
  -- manifest has been published: the tables are those that the transaction has committed.
  abbrev pub Published : ℕ → ℕ → ObjectOid → ℕ → ObjectManifest → Db → Db → Type 0
  Published now id o upload_id m db db' =
      (bytes : List ℕ) × (inserted : Bool) × Assembled d.backing.hashes.blake3 m.chunks bytes
      × (d.backing.hashes.sha256 bytes ≡ o.bytes)
      × (publish_manifest now id upload_id m db ≡ ok (inserted, db'))

  counted-Reads :
      (b : Bool) (n : ℕ)
      → Reads {S = d.backing.objects.State} (if b then count (add_uploaded n) else pure tt)
  counted-Reads b n = Reads-if b (Reads-count _) (Reads-pure _)

  finalize_open-Published :
      (now id : ℕ) (o : ObjectOid) (upload_id : ℕ) (m : ObjectManifest)
      (s t : AppState d.backing.objects.State)
      → finalize_open d now id o upload_id m s ≡ (ok tt, t)
      → Published now id o upload_id m s.world.db t.world.db
  unfolding finalize_open
  finalize_open-Published now id o upload_id m s t h =
      through (assemble d missing_conflicts id m.chunks) _ s h λ bytes s1 e1 h1.
        past (list_eq (d.backing.hashes.sha256 bytes) o.bytes)
          (api_error 422 "object SHA-256 mismatch") _ s1 h1
          λ tested h2.
            through (transaction (publish_manifest now id upload_id m)) _ s1 h2 λ inserted s2 e2 h3.
              let kept =
                Reads-eq _ s s1 (ok bytes) (assemble-Reads d missing_conflicts id m.chunks) e1 in
              let committed =
                (transaction-ok (publish_manifest now id upload_id m) s1 s2 inserted e2).0 in
              let end = Reads-eq _ s2 t (ok tt) (counted-Reads inserted m.object_size) h3 in
              (
                bytes,
                inserted,
                assemble-Assembled d missing_conflicts id m.chunks s s1 bytes e1,
                (list_eq_iff (d.backing.hashes.sha256 bytes) o.bytes).0 tested,
                cc,
              )

  -- What `finalize_cdc` has done when it succeeds: nothing, if the session was finalized before, and
  -- otherwise it has published what it has read.
  abbrev pub Finalized :
      Request
      → ℕ
      → ℕ
      → List ℕ
      → ℕ
      → AppState d.backing.objects.State
      → AppState d.backing.objects.State
      → Type 0
  Finalized request now later oid upload_id s t =
      (o : ObjectOid) × (id : ℕ) × (m : ObjectManifest) × (before : Bool) × (v : AppState
        d.backing.objects.State)
      × Entered d request write oid s v o id
      × (load_finalizable_upload now (object_key id o) upload_id s.world.db
          ≡ ok ((m, before), s.world.db))
      × (((before ≡ true) × (t.world.db ≡ s.world.db))
          ⊎ ((before ≡ false) × Published later id o upload_id m s.world.db t.world.db))

  -- A finalization that succeeds was admitted for writing and has found the session's manifest.
  -- If the session was finalized before, the tables are as they were. If not, the manifest's
  -- chunks, each with the length and the BLAKE3 that the manifest says, add up to bytes whose SHA-256
  -- is the oid of the request, and the tables are those that publishing the manifest commits.
  pub finalize_cdc-Finalized :
      (request : Request) (now later : ℕ) (oid : List ℕ) (upload_id : ℕ)
      (s t : AppState d.backing.objects.State)
      → finalize_cdc d request now later oid upload_id s ≡ (ok tt, t)
      → Finalized request now later oid upload_id s t
  unfolding finalize_cdc
  finalize_cdc-Finalized request now later oid upload_id s t h =
      past (not s.data_requests_closed) shutting_down _ s h λ _ h1.
        through (enter d request write oid) _ s h1 λ found s1 e1 h2.
          through (transaction (load_finalizable_upload now (object_key found.1 found.0) upload_id))
            _ s1 h2
            λ loaded s2 e2 h3.
              let entered = enter-Entered d request write oid s s1 found.0 found.1 e1 in
              let same : s1.world.db ≡ s.world.db = entered.5 in
              let kept =
                Reads-eq _ s1 s2 (ok loaded)
                  (load_finalizable_upload-Reads d now (object_key found.1 found.0) upload_id) e2 in
              let committed =
                (transaction-ok (load_finalizable_upload now (object_key found.1 found.0) upload_id)
                  s1 s2 loaded e2).0 in
              let looked : load_finalizable_upload now (object_key found.1 found.0) upload_id
                    s.world.db
                  ≡ ok (loaded, s.world.db) =
                rw (kept, same) at committed in
              (
                found.0,
                found.1,
                loaded.0,
                loaded.1,
                s1,
                entered,
                looked,
                elim (Bool-cases loaded.1) [
                  | inl e ↦ inl (e, cc (rw e at h3))
                  | inr e ↦
                      let published =
                        finalize_open-Published later found.1 found.0 upload_id loaded.0 s2 t
                          (rw e at h3) in
                      let kept2 : s2.world.db ≡ s.world.db = cc in inr (e, rw kept2 at published)
                ],
              )
