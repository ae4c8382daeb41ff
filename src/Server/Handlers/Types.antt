-- ===== src/Server/Handlers/Types.antt =====
-- What the handlers of crates/git-lfs-delta-server/src/lib.rs are given: the crates and settings of
-- one deployment, and what a request carries.
pub mod Reading
pub mod Entering
use git_cdc.Common.{ℕ, Bool, true, false, not, List, [], ◌∷◌, Option, Result, ok, err}
use git_cdc.Core.Digest.{ObjectOid, Hex, DigestParseError}
use git_cdc.Core.Stream.{Cdc}
use git_cdc.Storage.{Backing}
use git_cdc.Server.Auth.{Authentication, authenticate}
use git_cdc.Server.Auth.Types.{Access, Clock}
use git_cdc.Server.Error.{Message}
use git_cdc.Server.Locks.{Identity}
use git_cdc.Server.Lookup.{parse_oid, repository_id}
use git_cdc.Server.Service.{Handler, ◌>>=◌, respond, transaction, pure}

-- The `url` crate: `path_segments_mut`, `pop_if_empty` and the segments that are added; `none` if
-- the URL can be no base.
pub record UrlCrate : Type 1 where
  pub Url : Type 0
  pub with_segments : Url → List (List ℕ) → Option Url

-- `staged` is a reader over a staging file of these bytes.
pub record Deployment : Type 1 where
  pub backing : Backing
  pub hex : Hex
  pub digest_text : DigestParseError hex.FromHexError → Message
  pub authentication : Authentication
  pub cdc : Cdc
  pub staged : List ℕ → cdc.Reader
  pub urls : UrlCrate
  pub base_url : urls.Url

pub record Request : Type 0 where
  pub clock : Clock
  pub authorization : Option (List ℕ)
  pub owner : List ℕ
  pub repository : List ℕ

abbrev pub Answer : Deployment → Type 0 → Type 0
Answer d A = Handler d.backing.objects.State A

module _ (d : Deployment) (request : Request) where
  unfoldable pub admit : Access → Answer d Identity
  admit access =
      authenticate d.backing.hashes.sha256 d.authentication request.clock request.authorization
        request.owner request.repository access

  -- The three steps that most handlers begin with.
  unfoldable pub enter : Access → List ℕ → Answer d (ObjectOid × ℕ)
  enter access oid = do
    identity ← admit access
    parsed ← respond (parse_oid d.hex d.digest_text oid)
    id ← transaction (repository_id request.owner request.repository)
    pure (parsed, id)
