-- ===== src/Server/Auth/Reading.antt =====
-- Authentication leaves the tables alone.
use git_cdc.Common.{ℕ, List, Option}
use git_cdc.Server.Auth.{
  Authentication, development_token, forgejo, oidc, authenticate_development, authenticate_by,
  authenticate,
}
use git_cdc.Server.Auth.Forgejo.Reading.{authenticate_forgejo-Reads}
use git_cdc.Server.Auth.Oidc.Reading.{authenticate_oidc-Reads}
use git_cdc.Server.Auth.Types.{Access, Clock}
use git_cdc.Server.Service.Laws.{Reads, reading}

module _ {S : Type 0} (sha256 : List ℕ → List ℕ) where
  authenticate_development-Reads :
      (hash value : List ℕ) → Reads {S = S} (authenticate_development sha256 hash value)
  unfolding authenticate_development
  authenticate_development-Reads hash value = search (reading) depth 20

  authenticate_by-Reads :
      (a : Authentication) (clock : Clock) (value owner name : List ℕ) (access : Access)
      → Reads {S = S} (authenticate_by sha256 a clock value owner name access)
  unfolding authenticate_by
  authenticate_by-Reads (development_token hash) clock value owner name access =
      authenticate_development-Reads hash value
  authenticate_by-Reads (forgejo client limits) clock value owner name access =
      authenticate_forgejo-Reads client value owner name sha256 limits clock access
  authenticate_by-Reads (oidc jwt trust) clock value owner name access =
      authenticate_oidc-Reads jwt trust value owner name access

  pub authenticate-Reads :
      (a : Authentication) (clock : Clock) (header : Option (List ℕ)) (owner name : List ℕ)
      (access : Access)
      → Reads {S = S} (authenticate sha256 a clock header owner name access)
  unfolding authenticate
  authenticate-Reads a clock header owner name access =
      search (reading, authenticate_by-Reads) depth 20
