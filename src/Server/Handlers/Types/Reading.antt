-- ===== src/Server/Handlers/Types/Reading.antt =====
-- A request enters without a write to the tables.
use git_cdc.Common.{ℕ, List, ◌≡◌}
use git_cdc.Server.Auth.Reading.{authenticate-Reads}
use git_cdc.Server.Auth.Types.{Access}
use git_cdc.Server.Handlers.Types.{Deployment, Request, admit, enter}
use git_cdc.Server.Lookup.{repository_id}
use git_cdc.Server.Lookup.Reading.{repository_id-Keeps}
use git_cdc.Server.Service.{transaction}
use git_cdc.Server.Service.Laws.{Reads, reading, Reads-transaction}

module _ (d : Deployment) (request : Request) where
  pub admit-Reads : (access : Access) → Reads (admit d request access)
  unfolding admit
  admit-Reads access =
      authenticate-Reads d.backing.hashes.sha256 d.authentication request.clock
        request.authorization request.owner request.repository access

  pub repository_id-Reads :
      Reads {S = d.backing.objects.State}
        (transaction (repository_id request.owner request.repository))
  repository_id-Reads =
      Reads-transaction (λ db. repository_id-Keeps (λ x. x ≡ db) request.owner request.repository)

  pub enter-Reads : (access : Access) (oid : List ℕ) → Reads (enter d request access oid)
  unfolding enter
  enter-Reads access oid = search (reading, admit-Reads, repository_id-Reads) depth 20
