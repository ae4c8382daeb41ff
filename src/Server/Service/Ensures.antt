-- ===== src/Server/Service/Ensures.antt =====
-- What a handler ensures of its result, while a property of the cache's entries is kept whether it
-- succeeds or fails.
use git_cdc.Common.{◌≡◌, refl, Bool, true, false, List, Option, none, some, Result, ok, err}
use git_cdc.Server.Error.{ApiError}
use git_cdc.Server.Service.{
  AppState, ServiceMetrics, CachedForgejoIdentity, Handler, resume, ◌>>=◌, pure, require, ok_or,
  count,
}

module _ {S : Type 0} (Q : List CachedForgejoIdentity → Type 0) where
  abbrev pub Ends : {A : Type 0} → (A → Type 0) → Result A ApiError × AppState S → Type 0
  Ends P (ok a, t) = P a × Q t.entries
  Ends P (err e, t) = Q t.entries

  pub record Ensures {A : Type 0} (P : A → Type 0) (m : Handler S A) : Type 0 where
    pub ensured : (s : AppState S) → Q s.entries → Ends P (m s)

module _ {S : Type 0} {Q : List CachedForgejoIdentity → Type 0} where
  resume-Ends :
      {A B : Type 0} (P : A → Type 0) (R : B → Type 0) (f : A → Handler S B)
      (r : Result A ApiError × AppState S)
      → Ends Q P r
      → ((a : A) → P a → Ensures Q R (f a))
      → Ends Q R (resume f r)
  resume-Ends P R f (ok a, t) h k = (k a h.0).ensured t h.1
  resume-Ends P R f (err e, t) h k = h

  pub Ensures->>= :
      {A B : Type 0} {P : A → Type 0} {R : B → Type 0} {m : Handler S A} {f : A → Handler S B}
      → Ensures Q P m
      → ((a : A) → P a → Ensures Q R (f a))
      → Ensures Q R (m >>= f)
  Ensures->>= {P} {R} {m} {f} h k = record {
    ensured = λ s q. resume-Ends P R f (m s) (h.ensured s q) k;
  }

  pub Ensures-require : (b : Bool) (e : ApiError) → Ensures Q (λ _. b ≡ true) (require {S = S} b e)
  Ensures-require true e = record { ensured = λ s q. (refl, q) }
  Ensures-require false e = record { ensured = λ s q. q }

  pub Ensures-ok_or :
      {A : Type 0} (o : Option A) (e : ApiError) → Ensures Q (λ a. o ≡ some a) (ok_or {S = S} o e)
  Ensures-ok_or none e = record { ensured = λ s q. q }
  Ensures-ok_or (some a) e = record { ensured = λ s q. (refl, q) }

  pub Ensures-count :
      (f : ServiceMetrics → ServiceMetrics) → Ensures Q (λ _. Unit {0}) (count {S = S} f)
  Ensures-count f = record { ensured = λ s q. (tt, q) }

  pub Ensures-pure : {A : Type 0} {P : A → Type 0} (a : A) → P a → Ensures Q P (pure {S = S} a)
  Ensures-pure a p = record { ensured = λ s q. (p, q) }

  pub Ensures-weaken :
      {A : Type 0} {P R : A → Type 0} {m : Handler S A}
      → Ensures Q P m
      → ((a : A) → P a → R a)
      → Ensures Q R m
  Ensures-weaken {P} {R} {m} h k = record { ensured = λ s q. go (m s) (h.ensured s q) }
    where
      go : (r : Result _ ApiError × AppState S) → Ends Q P r → Ends Q R r
      go (ok a, t) e = (k a e.0, e.1)
      go (err x, t) e = e
