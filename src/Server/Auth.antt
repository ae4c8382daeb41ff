-- ===== src/Server/Auth.antt =====
-- `authenticate` (crates/git-lfs-delta-server/src/lib.rs): who a request comes from, and whether the
-- repository is open to it.
pub mod Types
pub mod Cache
pub mod Forgejo
pub mod Oidc
pub mod Reading
mod Tests
use git_cdc.Common.{ℕ, true, List, Option, none, some, codes, list_eq, if◌then◌else◌}
use git_cdc.Server.Error.{unauthorized}
use git_cdc.Server.Locks.{Identity}
use git_cdc.Server.Service.{Handler, pure, fail, ◌>>=◌, ok_or}
use git_cdc.Server.Auth.Types.{
  Access, Clock, CacheLimits, ForgejoClient, Jwt, OidcTrust, strip_prefix,
}
use git_cdc.Server.Auth.Forgejo.{authenticate_forgejo}
use git_cdc.Server.Auth.Oidc.{authenticate_oidc}

-- The cache's entries are a part of the service's state.
pub data Authentication : Type 1 where
  development_token : List ℕ → Authentication
  forgejo : ForgejoClient → CacheLimits → Authentication
  oidc : (jwt : Jwt) → OidcTrust jwt → Authentication

module _ {S : Type 0} (sha256 : List ℕ → List ℕ) where
  unfoldable pub authenticate_development : List ℕ → List ℕ → Handler S Identity
  authenticate_development hash value = do
    token ← ok_or (strip_prefix (codes "Bearer ") value) unauthorized
    if list_eq (sha256 token) hash
        then pure (record {
          authorization = value;
          subject = codes "development-user";
          administrator = true;
        })
        else fail unauthorized

  unfoldable pub authenticate_by :
      Authentication → Clock → List ℕ → List ℕ → List ℕ → Access → Handler S Identity
  authenticate_by (development_token hash) clock value owner repository access =
      authenticate_development hash value
  authenticate_by (forgejo client limits) clock value owner repository access =
      authenticate_forgejo client sha256 limits clock value owner repository access
  authenticate_by (oidc jwt trust) clock value owner repository access =
      authenticate_oidc jwt trust value owner repository access

  -- The second argument is the authorization header's value, if there is one that is a text.
  unfoldable pub authenticate :
      Authentication → Clock → Option (List ℕ) → List ℕ → List ℕ → Access → Handler S Identity
  authenticate authentication clock header owner repository access = do
    value ← ok_or header unauthorized
    authenticate_by authentication clock value owner repository access
