-- ===== src/Server/Auth/Tests.antt =====
-- Authentication against a small Forgejo, and a token that a small issuer has signed.
use git_cdc.Common.{
  ℕ, ◌≡◌, ◌⊎◌, ◌<◌, refl, true, false, List, [], ◌∷◌, some, All, Result, ok, codes, list_eq, arith,
}
use git_cdc.Server.Auth.Cache.{Entries, find_entry, remember}
use git_cdc.Server.Auth.Cache.Laws.{IsWithin, remember-IsWithin}
use git_cdc.Server.Auth.Forgejo.{authenticate_forgejo}
use git_cdc.Server.Auth.Forgejo.Granting.{Vouched, Admitted, authenticate_forgejo-Admitted}
use git_cdc.Server.Auth.Oidc.{find_grant, grant_of, verified_subject, authenticate_oidc}
use git_cdc.Server.Auth.Oidc.Granting.{Granted, authenticate_oidc-Granted}
use git_cdc.Server.Auth.Types.{
  write, CacheLimits, Clock, ForgejoClient, Jwt, OidcTrust, strip_prefix,
}
use git_cdc.Server.Error.{ApiError}
use git_cdc.Server.Locks.{Identity}
use git_cdc.Server.Lookup.{find_repository}
use git_cdc.Server.Samples.{tables, world}
use git_cdc.Server.Schema.{Db}
use git_cdc.Server.Service.{AppState, CachedForgejoIdentity, transaction}
use git_cdc.Server.Service.Ensures.{Ends}
use git_cdc.Server.World.{in_transaction}

abbrev entry : ℕ → ℕ → CachedForgejoIdentity
entry key expires_at = record {
  key = key ∷ [];
  subject = codes "ann";
  administrator = false;
  expires_at = expires_at;
}

abbrev limits : CacheLimits
limits = record { ttl = 30; capacity = 2 }

-- A full cache, in which nothing has expired.
abbrev full : Entries
full = entry 1 50 ∷ entry 2 40 ∷ []

full-IsWithin : IsWithin 2 full
full-IsWithin = record { bounded = omega arith; distinct = ((λ e. absurd (cc e), tt), (tt, tt)) }

remember-IsWithin_example :
    IsWithin 2 (remember limits 10 (entry 3 40) full)
    × (find_entry (3 ∷ []) (remember limits 10 (entry 3 40) full) ≡ some (entry 3 40))
    × All
        (λ (e : CachedForgejoIdentity). (e.key ≡ 3 ∷ []) ⊎ (10 < e.expires_at))
        (remember limits 10 (entry 3 40) full)
remember-IsWithin_example =
    remember-IsWithin limits 10 (entry 3 40) full (omega arith) full-IsWithin

abbrev state : Db → AppState (List (List ℕ))
state db = record {
  world = world db;
  metrics = record {
    logical_uploaded = 0;
    logical_downloaded = 0;
    chunks_received = 0;
    auth_cache_hits = 0;
    auth_cache_misses = 0;
    forgejo_requests = 0;
    http_requests = 0;
    http_failures = 0;
    in_flight = 0;
  };
  entries = [];
  basic_transfers_closed = false;
  data_requests_closed = false;
  file_faults = [];
}

abbrev clock : Clock
clock = record { lookup = 5; retain = 6; insert = 7 }

-- It knows ann, who may push.
abbrev small_forgejo : ForgejoClient
small_forgejo = record {
  Url = Unit {0};
  user_url = some tt;
  repository_url = λ owner name. some tt;
  get_user = λ url authorization. some (record { status = 200; json = some (codes "ann") });
  get_repository = λ url authorization.
      some
        (record { status = 200; json = some (record { pull = true; push = true; admin = false }) });
}

authenticate_forgejo-Admitted_example :
    Ends
      (Vouched small_forgejo (λ x. x))
      (Admitted small_forgejo (λ x. x) (codes "token x") (codes "o") (codes "r") write)
      (authenticate_forgejo small_forgejo
        (λ x. x)
        limits
        clock
        (codes "token x")
        (codes "o")
        (codes "r")
        write
        (state (tables [] [] [] [])))
authenticate_forgejo-Admitted_example =
    authenticate_forgejo-Admitted small_forgejo (λ x. x) limits clock (codes "token x") (codes "o")
      (codes "r") write (state (tables [] [] [] [])) tt

-- The issuer has one key, and a token is its own subject.
abbrev small_jwt : Jwt
small_jwt = record {
  Jwk = Unit {0};
  DecodingKey = Unit {0};
  Algorithm = Unit {0};
  decode_header = λ token. some (some (1 ∷ []), tt);
  from_jwk = λ jwk. some tt;
  decode = λ token key algorithm issuer audience. some token;
}

abbrev trust : OidcTrust small_jwt
trust = record { issuer = []; audience = []; keys = λ key_id. some tt }

abbrev granting : Db
granting = record (tables [] [] [] []) {
  repository_grants =
      record {
        repository_id = 1;
        subject = codes "ann";
        can_read = true;
        can_write = true;
        can_admin = false;
      }
      ∷ [];
}

abbrev ann : Identity
ann = record { authorization = codes "Bearer ann"; subject = codes "ann"; administrator = false }

abbrev let_in : Result Identity ApiError × AppState (List (List ℕ))
let_in = authenticate_oidc small_jwt trust (codes "Bearer ann") [] [] write (state granting)

authenticate_oidc-runs : let_in ≡ (ok ann, let_in.1)
unfolding authenticate_oidc verified_subject strip_prefix find_grant grant_of find_repository
    transaction in_transaction list_eq
authenticate_oidc-runs = refl

authenticate_oidc-Granted_example :
    Granted small_jwt trust (codes "Bearer ann") [] [] write granting ann
    × (let_in.1.world.db ≡ granting)
authenticate_oidc-Granted_example =
    authenticate_oidc-Granted small_jwt trust (codes "Bearer ann") [] [] write (state granting)
      let_in.1 ann authenticate_oidc-runs
