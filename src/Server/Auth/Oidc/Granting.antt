-- ===== src/Server/Auth/Oidc/Granting.antt =====
-- Whom a token lets in.
use git_cdc.Common.{ℕ, ◌≡◌, subst, List, true, Option, some, ok, codes}
use git_cdc.Server.Auth.Types.{Access, Jwt, OidcTrust, strip_prefix}
use git_cdc.Server.Auth.Oidc.{find_grant, grants, verified_subject, authenticate_oidc}
use git_cdc.Server.Auth.Oidc.Reading.{verified_subject-Reads}
use git_cdc.Server.Error.{api_error, unauthorized}
use git_cdc.Server.Locks.{Identity}
use git_cdc.Server.Schema.{Db, RepositoryGrant}
use git_cdc.Server.Service.{AppState, ok_or, transaction}
use git_cdc.Server.Service.Laws.{through, past, ok_or-ok, transaction-ok, Reads-eq}
use git_cdc.Server.Tx.{select}

module _ (jwt : Jwt) (trust : OidcTrust jwt) where
  -- The authorization is a bearer token that names one of the issuer's keys, and which that key, the
  -- issuer and the audience verify as the subject's.
  abbrev pub Verified : List ℕ → List ℕ → Type 0
  Verified authorization subject =
      (token : List ℕ) × (key_id : List ℕ) × (algorithm : jwt.Algorithm) × (jwk : jwt.Jwk)
      × (key : jwt.DecodingKey) × (strip_prefix (codes "Bearer ") authorization ≡ some token)
      × (jwt.decode_header token ≡ some (some key_id, algorithm))
      × (trust.keys key_id ≡ some jwk)
      × (jwt.from_jwk jwk ≡ some key)
      × (jwt.decode token key algorithm trust.issuer trust.audience ≡ some subject)

  abbrev pub Granted : List ℕ → List ℕ → List ℕ → Access → Db → Identity → Type 0
  Granted authorization owner name access db i =
      Verified authorization i.subject
      × ((grant : RepositoryGrant) × (find_grant owner name i.subject db ≡ some grant)
          × (grants access grant ≡ true)
          × (i.administrator ≡ grant.can_admin))
      × (i.authorization ≡ authorization)

module _ {S : Type 0} (jwt : Jwt) (trust : OidcTrust jwt) where
  verified_subject-Verified :
      (authorization subject : List ℕ) (s t : AppState S)
      → verified_subject jwt trust authorization s ≡ (ok subject, t)
      → Verified jwt trust authorization subject
  unfolding verified_subject
  verified_subject-Verified authorization subject s t h =
      through (ok_or (strip_prefix (codes "Bearer ") authorization) unauthorized) _ s h
        λ token s1 e1 h1.
          through (ok_or (jwt.decode_header token) unauthorized) _ s1 h1 λ header s2 e2 h2.
            through (ok_or header.0 unauthorized) _ s2 h2 λ key_id s3 e3 h3.
              through (ok_or (trust.keys key_id) unauthorized) _ s3 h3 λ jwk s4 e4 h4.
                through (ok_or (jwt.from_jwk jwk) unauthorized) _ s4 h4 λ key s5 e5 h5.
                  let named = (ok_or-ok header.0 unauthorized s2 s3 key_id e3).0 in
                  let headed =
                    (ok_or-ok (jwt.decode_header token) unauthorized s1 s2 header e2).0 in
                  (
                    token,
                    key_id,
                    header.1,
                    jwk,
                    key,
                    (ok_or-ok _ _ s s1 token e1).0,
                    (λ i. headed_with header key_id (jwt.decode_header token) named headed i),
                    (ok_or-ok _ _ s3 s4 jwk e4).0,
                    (ok_or-ok _ _ s4 s5 key e5).0,
                    (ok_or-ok _ _ s5 t subject h5).0,
                  )
    where
      headed_with :
          (header : Option (List ℕ) × jwt.Algorithm) (key_id : List ℕ)
          (decoded : Option (Option (List ℕ) × jwt.Algorithm))
          → header.0 ≡ some key_id
          → decoded ≡ some header
          → decoded ≡ some (some key_id, header.1)
      headed_with header key_id decoded named e = cc

  -- Whoever is let in by OIDC has a bearer token that the trusted issuer's key verifies, and the tables
  -- have a grant for the token's subject in that repository which allows the access asked for; the
  -- identity has the token's subject, the request's authorization, and is an administrator exactly if
  -- the grant says so. The tables are as they were.
  pub authenticate_oidc-Granted :
      (authorization owner name : List ℕ) (access : Access) (s t : AppState S) (i : Identity)
      → authenticate_oidc jwt trust authorization owner name access s ≡ (ok i, t)
      → Granted jwt trust authorization owner name access s.world.db i × (t.world.db ≡ s.world.db)
  unfolding authenticate_oidc
  authenticate_oidc-Granted authorization owner name access s t i h =
      through (verified_subject jwt trust authorization) _ s h λ subject s1 e1 h1.
        let query = select (find_grant owner name subject) in
        through (transaction query) _ s1 h1 λ row s2 e2 h2.
          through (ok_or row (api_error 403 "repository access denied")) _ s2 h2 λ grant s3 e3 h3.
            past (grants access grant) (api_error 403 "repository access denied") _ s3 h3
              λ allowed h4.
                let kept =
                  Reads-eq _ s s1 (ok subject) (verified_subject-Reads jwt trust authorization)
                    e1 in
                let asked = (transaction-ok query s1 s2 row e2).0 in
                let picked = ok_or-ok row _ s2 s3 grant e3 in
                let verified = verified_subject-Verified authorization subject s s1 e1 in
                let found : find_grant owner name subject s.world.db ≡ some grant = cc in
                let same : subject ≡ i.subject = cc in
                (
                  (
                    subst (Verified jwt trust authorization) same verified,
                    (grant, rw same at found, allowed, cc),
                    cc,
                  ),
                  cc,
                )
