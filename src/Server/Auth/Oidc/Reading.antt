-- ===== src/Server/Auth/Oidc/Reading.antt =====
-- Looking up a grant leaves the tables alone.
use git_cdc.Common.{ℕ, List}
use git_cdc.Server.Auth.Types.{Access, Jwt, OidcTrust}
use git_cdc.Server.Auth.Oidc.{verified_subject, authenticate_oidc}
use git_cdc.Server.Service.Laws.{Reads, reading}
use git_cdc.Server.Tx.{keeping}

module _ {S : Type 0} (jwt : Jwt) (trust : OidcTrust jwt) (authorization : List ℕ) where
  pub verified_subject-Reads : Reads {S = S} (verified_subject jwt trust authorization)
  unfolding verified_subject
  verified_subject-Reads = search (reading) depth 40

  pub authenticate_oidc-Reads :
      (owner name : List ℕ) (access : Access)
      → Reads {S = S} (authenticate_oidc jwt trust authorization owner name access)
  unfolding authenticate_oidc
  authenticate_oidc-Reads owner name access =
      search (reading, keeping, verified_subject-Reads) depth 20
