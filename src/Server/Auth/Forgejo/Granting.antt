-- ===== src/Server/Auth/Forgejo/Granting.antt =====
-- Whoever is let in has been granted access by Forgejo.
use git_cdc.Common.{
  ℕ, Bool, true, false, not, ◌≡◌, refl, subst, List, Option, none, some, All, nat_eq, ltb, inl, inr,
  Bool-cases, Option-cases,
}
use git_cdc.Server.Auth.Types.{
  Access, Clock, CacheLimits, ForgejoClient, ForgejoPermissions, Response,
}
use git_cdc.Server.Auth.Cache.{Entries, cache_key, find_entry, remember}
use git_cdc.Server.Auth.Cache.Laws.{All-remember, All-remove_entry, find_entry-All}
use git_cdc.Server.Auth.Forgejo.{
  is_success, is_error, permits, look_up, ask_user, ask_repository, ask_forgejo, authorize, answer,
  authenticate_forgejo, add_hit, add_miss, add_request, set_entries,
}
use git_cdc.Server.Error.{unauthorized, authentication, api_error}
use git_cdc.Server.Locks.{Identity}
use git_cdc.Server.Service.{AppState, CachedForgejoIdentity}
use git_cdc.Server.Service.Ensures.{
  Ends, Ensures, Ensures->>=, Ensures-require, Ensures-ok_or, Ensures-count, Ensures-pure,
  Ensures-weaken,
}

false_of_refused : (b : Bool) → not b ≡ true → b ≡ false
false_of_refused true h = absurd (cc)
false_of_refused false h = refl

module _ (client : ForgejoClient) where
  -- Forgejo has named the caller.
  abbrev pub Named : List ℕ → List ℕ → Type 0
  Named authorization login =
      (url : client.Url) × (response : Response (List ℕ)) × (client.user_url ≡ some url)
      × (client.get_user url authorization ≡ some response)
      × (is_success response.status ≡ true)
      × (response.json ≡ some login)

  -- Forgejo has told what the caller may do with the repository.
  abbrev pub Permitted : List ℕ → List ℕ → List ℕ → ForgejoPermissions → Type 0
  Permitted authorization owner name permissions =
      (url : client.Url) × (response : Response ForgejoPermissions) × (client.repository_url owner
          name
        ≡ some url)
      × (client.get_repository url authorization ≡ some response)
      × (is_error response.status ≡ false)
      × (response.json ≡ some permissions)

  module _ (sha256 : List ℕ → List ℕ) where
    -- Forgejo has granted some request with this key its access, and has named the caller.
    abbrev pub Granted : List ℕ → List ℕ → Bool → Type 0
    Granted key subject administrator =
        (authorization : List ℕ) × (owner : List ℕ) × (name : List ℕ) × (access : Access)
        × (permissions : ForgejoPermissions) × (key
            ≡ cache_key sha256 authorization owner name access)
        × Named authorization subject
        × Permitted authorization owner name permissions
        × (permits access permissions ≡ true)
        × (administrator ≡ permissions.admin)

    abbrev pub Vouched : Entries → Type 0
    Vouched es = All (λ (e : CachedForgejoIdentity). Granted e.key e.subject e.administrator) es

  -- What the cache has under a key, if anything, was granted.
  abbrev GrantedIf : (List ℕ → List ℕ) → List ℕ → Option CachedForgejoIdentity → Type 0
  GrantedIf sha256 k none = Unit
  GrantedIf sha256 k (some e) = Granted sha256 k e.subject e.administrator

  -- The identity was granted, and it carries the caller's authorization.
  abbrev pub Admitted : (List ℕ → List ℕ) → List ℕ → List ℕ → List ℕ → Access → Identity → Type 0
  Admitted sha256 authorization owner name access i =
      Granted sha256 (cache_key sha256 authorization owner name access) i.subject i.administrator
      × (i.authorization ≡ authorization)

module _ {S : Type 0} (client : ForgejoClient) where
  module _ {Q : Entries → Type 0} where
    ask_user-Named :
        (url : client.Url) (authorization : List ℕ)
        → client.user_url ≡ some url
        → Ensures {S = S} Q (Named client authorization) (ask_user client url authorization)
    unfolding ask_user
    ask_user-Named url authorization here = Ensures->>= (Ensures-count add_request) λ _ _.
        Ensures->>= (Ensures-ok_or (client.get_user url authorization) authentication)
          λ response got.
            Ensures->>= (Ensures-require (is_success response.status) unauthorized) λ _ good.
              Ensures-weaken (Ensures-ok_or response.json authentication)
                λ login read. (url, response, here, got, good, read)

    ask_repository-Permitted :
        (url : client.Url) (authorization owner name : List ℕ)
        → client.repository_url owner name ≡ some url
        → Ensures {S = S} Q
            (Permitted client authorization owner name)
            (ask_repository client url authorization)
    unfolding ask_repository
    ask_repository-Permitted url authorization owner name here =
        Ensures->>= (Ensures-count add_request) λ _ _.
          Ensures->>= (Ensures-ok_or (client.get_repository url authorization) authentication)
            λ response got.
              Ensures->>= (Ensures-require (not (nat_eq response.status 401)) unauthorized) λ _ _.
                Ensures->>=
                  (Ensures-require (not (nat_eq response.status 404))
                    (api_error 404 "repository not found"))
                  λ _ _.
                    Ensures->>= (Ensures-require (not (is_error response.status)) authentication)
                      λ _ good.
                        Ensures-weaken (Ensures-ok_or response.json authentication)
                          λ permissions read. (
                            url,
                            response,
                            here,
                            got,
                            false_of_refused (is_error response.status) good,
                            read,
                          )

    ask_forgejo-Answered :
        (authorization owner name : List ℕ)
        → Ensures {S = S} Q
            (λ answer.
              Named client authorization answer.0
              × Permitted client authorization owner name answer.1)
            (ask_forgejo client authorization owner name)
    unfolding ask_forgejo
    ask_forgejo-Answered authorization owner name = Ensures->>= (Ensures-count add_miss) λ _ _.
        Ensures->>= (Ensures-ok_or client.user_url authentication) λ u first.
          Ensures->>= (Ensures-ok_or (client.repository_url owner name) authentication) λ v second.
            Ensures->>= (ask_user-Named u authorization first) λ login named.
              Ensures->>= (ask_repository-Permitted v authorization owner name second)
                λ permissions permitted. Ensures-pure (login, permissions) (named, permitted)

  module _ (sha256 : List ℕ → List ℕ) (limits : CacheLimits) (clock : Clock)
      (authorization owner name : List ℕ) (access : Access) where
    set_entries-Vouched :
        (e : CachedForgejoIdentity)
        → Granted client sha256 e.key e.subject e.administrator
        → Ensures {S = S}
            (Vouched client sha256)
            (λ _. Unit {0})
            (set_entries (remember limits clock.retain e))
    set_entries-Vouched e granted = record {
      ensured = λ s q. (tt, All-remember _ limits clock.retain e s.entries granted q);
    }

    authorize-Admitted :
        Ensures {S = S}
          (Vouched client sha256)
          (Admitted client sha256 authorization owner name access)
          (authorize client sha256 limits clock authorization owner name access)
    unfolding authorize
    authorize-Admitted = Ensures->>= (ask_forgejo-Answered authorization owner name) λ a answered.
        Ensures->>=
          (Ensures-require (permits access a.1) (api_error 403 "repository access denied"))
          λ _ allowed.
            let granted : Granted client sha256 (cache_key sha256 authorization owner name access)
                a.0 a.1.admin =
              (
                authorization, owner, name, access, a.1, refl, answered.0, answered.1, allowed,
                refl,
              ) in
            Ensures->>= (set_entries-Vouched _ granted) λ _ _. Ensures-pure _ (granted, refl)

    look_up-Vouched :
        (k : List ℕ)
        → Ensures {S = S}
            (Vouched client sha256)
            (GrantedIf client sha256 k)
            (look_up k clock.lookup)
    unfolding look_up
    look_up-Vouched k = record {
      ensured = λ s q. elim (Option-cases (find_entry k s.entries)) [
        | inl missed ↦ rw (missed, look_up) (tt, q)
        | inr (e, found) ↦
            let (granted, same) = find_entry-All _ k s.entries e q found in
            elim (Bool-cases (ltb clock.lookup e.expires_at)) [
              | inl fresh ↦
                  rw (found, look_up, fresh)
                    (subst (λ x. Granted client sha256 x e.subject e.administrator) same granted, q)
              | inr stale ↦ rw (found, look_up, stale) (tt, All-remove_entry _ k s.entries q)
            ]
      ];
    }

    answer-Admitted :
        (found : Option CachedForgejoIdentity)
        → GrantedIf client sha256 (cache_key sha256 authorization owner name access) found
        → Ensures {S = S}
            (Vouched client sha256)
            (Admitted client sha256 authorization owner name access)
            (answer client sha256 limits clock authorization owner name access found)
    unfolding answer
    answer-Admitted none _ = authorize-Admitted
    answer-Admitted (some e) granted =
        Ensures->>= (Ensures-count add_hit) λ _ _. Ensures-pure _ (granted, refl)

    -- If every entry of the cache was granted by Forgejo, then so it is after any request, whether it
    -- succeeds or fails; and an identity that a request is answered with carries the request's own
    -- authorization, and its name and its rights are those with which Forgejo has granted access to a
    -- request of the same cache key, hit or miss.
    pub authenticate_forgejo-Admitted :
        (s : AppState S)
        → Vouched client sha256 s.entries
        → Ends
            (Vouched client sha256)
            (Admitted client sha256 authorization owner name access)
            (authenticate_forgejo client sha256 limits clock authorization owner name access s)
    unfolding authenticate_forgejo
    authenticate_forgejo-Admitted s q =
        Ensures.ensured
          (Ensures->>= (look_up-Vouched (cache_key sha256 authorization owner name access))
            answer-Admitted)
          s q
