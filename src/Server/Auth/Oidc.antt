-- ===== src/Server/Auth/Oidc.antt =====
-- `authenticate_oidc` (crates/git-lfs-delta-server/src/lib.rs).
pub mod Reading
pub mod Granting
use git_cdc.Common.{
  ℕ, Bool, true, false, ◌&&◌, List, [], ◌∷◌, Option, none, some, nat_eq, list_eq, codes,
  if◌then◌else◌,
}
use git_cdc.Server.Auth.Types.{Access, read, write, Jwt, OidcTrust, strip_prefix}
use git_cdc.Server.Error.{api_error, unauthorized}
use git_cdc.Server.Locks.{Identity}
use git_cdc.Server.Lookup.{find_repository}
use git_cdc.Server.Schema.{Db, RepositoryGrant}
use git_cdc.Server.Service.{Handler, pure, ◌>>=◌, ◌>>◌, require, ok_or, transaction}
use git_cdc.Server.Tx.{select}

unfoldable pub grant_of : ℕ → List ℕ → List RepositoryGrant → Option RepositoryGrant
grant_of id subject [] = none
grant_of id subject (g ∷ gs) =
    if nat_eq g.repository_id id && list_eq g.subject subject
    then some g
    else grant_of id subject gs

-- `SELECT ... FROM repository_grants g JOIN repositories r ON r.id = g.repository_id WHERE ...`: a
-- repository has one row for its owner and name, and one grant at most for a subject.
unfoldable pub find_grant : List ℕ → List ℕ → List ℕ → Db → Option RepositoryGrant
find_grant owner name subject db = elim (find_repository owner name db.repositories) [
  | none ↦ none
  | some id ↦ grant_of id subject db.repository_grants
]

abbrev pub grants : Access → RepositoryGrant → Bool
grants read g = g.can_read
grants write g = g.can_write

module _ {S : Type 0} (jwt : Jwt) (trust : OidcTrust jwt) where
  -- The token's subject, if it is signed by a key that the issuer publishes.
  unfoldable pub verified_subject : List ℕ → Handler S (List ℕ)
  verified_subject authorization = do
    token ← ok_or (strip_prefix (codes "Bearer ") authorization) unauthorized
    header ← ok_or (jwt.decode_header token) unauthorized
    key_id ← ok_or header.0 unauthorized
    jwk ← ok_or (trust.keys key_id) unauthorized
    key ← ok_or (jwt.from_jwk jwk) unauthorized
    ok_or (jwt.decode token key header.1 trust.issuer trust.audience) unauthorized

  unfoldable pub authenticate_oidc : List ℕ → List ℕ → List ℕ → Access → Handler S Identity
  authenticate_oidc authorization owner name access = do
    subject ← verified_subject authorization
    row ← transaction (select (find_grant owner name subject))
    grant ← ok_or row (api_error 403 "repository access denied")
    require (grants access grant) (api_error 403 "repository access denied")
    pure (record {
      authorization = authorization;
      subject = subject;
      administrator = grant.can_admin;
    })
