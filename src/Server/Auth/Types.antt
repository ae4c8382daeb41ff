-- ===== src/Server/Auth/Types.antt =====
-- What authentication goes by (crates/git-lfs-delta-server/src/lib.rs). The crates that it calls are
-- parameters: the HTTP client's answers (`reqwest`) as `ForgejoClient`, and `jsonwebtoken` as `Jwt`.
use git_cdc.Common.{ℕ, Bool, List, [], ◌∷◌, Option, none, some, nat_eq, if◌then◌else◌}

pub data Access : Type 0 where
  read write : Access

pub record ForgejoPermissions : Type 0 where
  pub pull : Bool
  pub push : Bool
  pub admin : Bool

-- A response: its status, and what `json` makes of its body (`none` if it is no such value).
pub record Response (A : Type 0) : Type 0 where
  pub status : ℕ
  pub json : Option A

-- `join` and `path_segments_mut` on the base URL, and the requests with an authorization header;
-- `none` is an error of the crate. A `ForgejoUser` is its login, a `ForgejoRepository` its
-- permissions.
pub record ForgejoClient : Type 1 where
  pub Url : Type 0
  pub user_url : Option Url
  pub repository_url : List ℕ → List ℕ → Option Url
  pub get_user : Url → List ℕ → Option (Response (List ℕ))
  pub get_repository : Url → List ℕ → Option (Response ForgejoPermissions)

-- The times that `Instant::now` gives in the course of one request.
pub record Clock : Type 0 where
  pub lookup : ℕ
  pub retain : ℕ
  pub insert : ℕ

pub record CacheLimits : Type 0 where
  pub ttl : ℕ
  pub capacity : ℕ

-- `decode` is given the key, the algorithm, the issuer and the audience; it gives the subject.
pub record Jwt : Type 1 where
  pub Jwk : Type 0
  pub DecodingKey : Type 0
  pub Algorithm : Type 0
  pub decode_header : List ℕ → Option (Option (List ℕ) × Algorithm)
  pub from_jwk : Jwk → Option DecodingKey
  pub decode : List ℕ → DecodingKey → Algorithm → List ℕ → List ℕ → Option (List ℕ)

pub record OidcTrust (jwt : Jwt) : Type 0 where
  pub issuer : List ℕ
  pub audience : List ℕ
  pub keys : List ℕ → Option jwt.Jwk

-- `str::strip_prefix`
unfoldable pub strip_prefix : List ℕ → List ℕ → Option (List ℕ)
strip_prefix [] value = some value
strip_prefix (c ∷ cs) [] = none
strip_prefix (c ∷ cs) (v ∷ vs) = if nat_eq c v then strip_prefix cs vs else none
