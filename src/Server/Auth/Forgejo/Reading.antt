-- ===== src/Server/Auth/Forgejo/Reading.antt =====
-- Asking Forgejo leaves the tables alone.
use git_cdc.Common.{ℕ, List, Option, arith, some, none}
use git_cdc.Server.Auth.Types.{Access, Clock, CacheLimits, ForgejoClient}
use git_cdc.Server.Auth.Forgejo.{
  look_up, ask_user, ask_repository, ask_forgejo, authorize, answer, authenticate_forgejo,
}
use git_cdc.Server.Service.{CachedForgejoIdentity}
use git_cdc.Server.Service.Laws.{Reads, reading}

module _ {S : Type 0} where
  look_up-Reads : (key : List ℕ) (now : ℕ) → Reads {S = S} (look_up key now)
  unfolding look_up
  look_up-Reads key now = record { keeps = λ s. ground arith }

  module _ (client : ForgejoClient) (authorization owner name : List ℕ) where
    ask_user-Reads : (url : client.Url) → Reads {S = S} (ask_user client url authorization)
    unfolding ask_user
    ask_user-Reads url = search (reading) depth 20

    ask_repository-Reads :
        (url : client.Url) → Reads {S = S} (ask_repository client url authorization)
    unfolding ask_repository
    ask_repository-Reads url = search (reading) depth 20

    ask_forgejo-Reads : Reads {S = S} (ask_forgejo client authorization owner name)
    unfolding ask_forgejo
    ask_forgejo-Reads = search (reading, ask_user-Reads, ask_repository-Reads) depth 20

    module _ (sha256 : List ℕ → List ℕ) (limits : CacheLimits) (clock : Clock)
        (access : Access) where
      authorize-Reads :
          Reads {S = S} (authorize client sha256 limits clock authorization owner name access)
      unfolding authorize
      authorize-Reads = search (reading, ask_forgejo-Reads) depth 20

      answer-Reads :
          (cached : Option CachedForgejoIdentity)
          → Reads {S = S} (answer client sha256 limits clock authorization owner name access cached)
      unfolding answer
      answer-Reads none = authorize-Reads
      answer-Reads (some cached) = search (reading)

      pub authenticate_forgejo-Reads :
          Reads {S = S}
            (authenticate_forgejo client sha256 limits clock authorization owner name access)
      unfolding authenticate_forgejo
      authenticate_forgejo-Reads = search (reading, look_up-Reads, answer-Reads) depth 20
