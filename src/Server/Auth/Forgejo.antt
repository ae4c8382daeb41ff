-- ===== src/Server/Auth/Forgejo.antt =====
-- `authenticate_forgejo` (crates/git-lfs-delta-server/src/lib.rs).
pub mod Reading
pub mod Granting
use git_cdc.Common.{
  ℕ, ◌+◌, Bool, true, false, not, ◌&&◌, ◌||◌, List, [], ◌∷◌, Option, none, some, ltb, leb, nat_eq,
  if◌then◌else◌,
}
use git_cdc.Server.Auth.Types.{
  Access, read, write, Clock, CacheLimits, ForgejoClient, ForgejoPermissions, Response,
}
use git_cdc.Server.Auth.Cache.{Entries, cache_key, find_entry, remove_entry, remember}
use git_cdc.Server.Error.{api_error, unauthorized, authentication}
use git_cdc.Server.Locks.{Identity}
use git_cdc.Server.Service.{
  AppState, ServiceMetrics, CachedForgejoIdentity, Handler, pure, fail, ◌>>=◌, ◌>>◌, require, ok_or,
  count, fetch_add,
}

-- `StatusCode::is_success`, and the statuses that `error_for_status` passes.
abbrev pub is_success : ℕ → Bool
is_success status = leb 200 status && ltb status 300

abbrev pub is_error : ℕ → Bool
is_error status = leb 400 status && ltb status 600

abbrev pub permits : Access → ForgejoPermissions → Bool
permits read p = p.pull || (p.push || p.admin)
permits write p = p.push || p.admin

abbrev add_hit : ServiceMetrics → ServiceMetrics
add_hit m = record m { auth_cache_hits = fetch_add 1 m.auth_cache_hits }

abbrev add_miss : ServiceMetrics → ServiceMetrics
add_miss m = record m { auth_cache_misses = fetch_add 1 m.auth_cache_misses }

abbrev add_request : ServiceMetrics → ServiceMetrics
add_request m = record m { forgejo_requests = fetch_add 1 m.forgejo_requests }

module _ {S : Type 0} where
  -- The first section that holds the cache's lock: an entry that has expired is removed.
  pub look_up : List ℕ → ℕ → Handler S (Option CachedForgejoIdentity)
  look_up key now s = elim (find_entry key s.entries) [
    | none ↦ pure none s
    | some cached ↦
        if ltb now cached.expires_at
        then pure (some cached) s
        else pure none (record s { entries = remove_entry key s.entries })
  ]

  abbrev set_entries : (Entries → Entries) → Handler S (Unit {0})
  set_entries f s = pure tt (record s { entries = f s.entries })

  module _ (client : ForgejoClient) where
    pub ask_user : client.Url → List ℕ → Handler S (List ℕ)
    ask_user url authorization = do
      count add_request
      response ← ok_or (client.get_user url authorization) authentication
      require (is_success response.status) unauthorized
      ok_or response.json authentication

    pub ask_repository : client.Url → List ℕ → Handler S ForgejoPermissions
    ask_repository url authorization = do
      count add_request
      response ← ok_or (client.get_repository url authorization) authentication
      require (not (nat_eq response.status 401)) unauthorized
      require (not (nat_eq response.status 404)) (api_error 404 "repository not found")
      require (not (is_error response.status)) authentication
      ok_or response.json authentication

    -- The two requests: the login, and the permissions.
    pub ask_forgejo : List ℕ → List ℕ → List ℕ → Handler S (List ℕ × ForgejoPermissions)
    ask_forgejo authorization owner name = do
      count add_miss
      user_url ← ok_or client.user_url authentication
      repository_url ← ok_or (client.repository_url owner name) authentication
      login ← ask_user user_url authorization
      permissions ← ask_repository repository_url authorization
      pure (login, permissions)

    pub authorize :
        (List ℕ → List ℕ)
        → CacheLimits
        → Clock
        → List ℕ
        → List ℕ
        → List ℕ
        → Access
        → Handler S Identity
    authorize sha256 limits clock authorization owner name access = do
      answer ← ask_forgejo authorization owner name
      require (permits access answer.1) (api_error 403 "repository access denied")
      set_entries (
          remember limits clock.retain (record {
            key = cache_key sha256 authorization owner name access;
            subject = answer.0;
            administrator = answer.1.admin;
            expires_at = clock.insert + limits.ttl;
          }))
      pure (record {
        authorization = authorization;
        subject = answer.0;
        administrator = answer.1.admin;
      })

    module _ (sha256 : List ℕ → List ℕ) (limits : CacheLimits) (clock : Clock)
        (authorization owner name : List ℕ) (access : Access) where
      -- A hit is answered from the cache, and a miss by Forgejo.
      pub answer : Option CachedForgejoIdentity → Handler S Identity
      answer none = authorize sha256 limits clock authorization owner name access
      answer (some cached) = do
        count add_hit
        pure (record {
          authorization = authorization;
          subject = cached.subject;
          administrator = cached.administrator;
        })

      pub authenticate_forgejo : Handler S Identity
      authenticate_forgejo = do
        cached ← look_up (cache_key sha256 authorization owner name access) clock.lookup
        answer cached
