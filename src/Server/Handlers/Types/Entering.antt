-- ===== src/Server/Handlers/Types/Entering.antt =====
-- What has been found when a request has entered.
use git_cdc.Common.{ℕ, ◌≡◌, List, ok}
use git_cdc.Core.Digest.{ObjectOid}
use git_cdc.Server.Auth.Types.{Access}
use git_cdc.Server.Handlers.Types.{Deployment, Request, admit, enter}
use git_cdc.Server.Handlers.Types.Reading.{enter-Reads, admit-Reads}
use git_cdc.Server.Lookup.{parse_oid, repository_id}
use git_cdc.Server.Locks.{Identity}
use git_cdc.Server.Service.{AppState, respond, transaction}
use git_cdc.Server.Service.Laws.{through, Reads-eq, transaction-ok}

module _ (d : Deployment) (request : Request) (access : Access) (oid : List ℕ) where
  -- The request is admitted, the text is an oid, and the repository is one of the tables, which are
  -- as they were.
  abbrev pub Entered :
      AppState d.backing.objects.State → AppState d.backing.objects.State → ObjectOid → ℕ → Type 0
  Entered s t o id =
      (identity : Identity) × (v : AppState d.backing.objects.State) × (admit d request access s
        ≡ (ok identity, v))
      × (parse_oid d.hex d.digest_text oid ≡ ok o)
      × (repository_id request.owner request.repository s.world.db ≡ ok (id, s.world.db))
      × (t.world.db ≡ s.world.db)

  pub enter-Entered :
      (s t : AppState d.backing.objects.State) (o : ObjectOid) (id : ℕ)
      → enter d request access oid s ≡ (ok (o, id), t)
      → Entered s t o id
  unfolding enter
  enter-Entered s t o id h =
      let kept =
        Reads-eq (enter d request access oid) s t (ok (o, id)) (enter-Reads d request access oid)
          h in
      through (admit d request access) _ s h λ identity s1 admitted h1.
        through (respond (parse_oid d.hex d.digest_text oid)) _ s1 h1 λ parsed s2 e2 h2.
          through (transaction (repository_id request.owner request.repository)) _ s2 h2
            λ found s3 e3 h3.
              let here =
                Reads-eq (admit d request access) s s1 (ok identity) (admit-Reads d request access)
                  admitted in
              let looked =
                (transaction-ok (repository_id request.owner request.repository) s2 s3 found
                  e3).0 in
              (identity, s1, admitted, cc, cc, kept)
