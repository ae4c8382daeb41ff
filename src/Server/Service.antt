-- ===== src/Server/Service.antt =====
-- `AppState` (crates/git-lfs-delta-server/src/lib.rs) as far as handlers change it, and a handler as
-- a function of it: a response or an `ApiError`, and the state that it leaves, errors included.
-- `file_faults` says, for each coming operation on a staging file, whether the system refuses it; an
-- empty list means no more faults. A semaphore that has been closed refuses.
pub mod Laws
pub mod Ensures
use git_cdc.Common.{
  ℕ, ◌+◌, ◌%◌, ◌^◌, Bool, true, false, List, [], ◌∷◌, Option, none, some, Result, ok, err, map_err,
}
use git_cdc.Server.Error.{ApiError, api_error, io, storage}
use git_cdc.Server.Tx.{Tx, TxError, to_api}
use git_cdc.Server.World.{World, in_transaction}
use git_cdc.Storage.{StorageError}

-- The counters are 64 bits wide.
pub record ServiceMetrics : Type 0 where
  pub logical_uploaded : ℕ
  pub logical_downloaded : ℕ
  pub chunks_received : ℕ
  pub auth_cache_hits : ℕ
  pub auth_cache_misses : ℕ
  pub forgejo_requests : ℕ
  pub http_requests : ℕ
  pub http_failures : ℕ
  pub in_flight : ℕ

-- `fetch_add` on an `AtomicU64`
abbrev pub fetch_add : ℕ → ℕ → ℕ
fetch_add n counter = (counter + n) % 2 ^ 64

-- An entry of the authorization cache, with its key.
pub record CachedForgejoIdentity : Type 0 where
  pub key : List ℕ
  pub subject : List ℕ
  pub administrator : Bool
  pub expires_at : ℕ

pub record AppState (S : Type 0) : Type 0 where
  pub world : World S
  pub metrics : ServiceMetrics
  pub entries : List CachedForgejoIdentity
  pub basic_transfers_closed : Bool
  pub data_requests_closed : Bool
  pub file_faults : List Bool

abbrev pub Handler : Type 0 → Type 0 → Type 0
Handler S A = AppState S → Result A ApiError × AppState S

module _ {S : Type 0} where
  abbrev pub respond : {A : Type 0} → Result A ApiError → Handler S A
  respond r s = (r, s)

  abbrev pub pure : {A : Type 0} → A → Handler S A
  pure a s = (ok a, s)

  abbrev pub fail : {A : Type 0} → ApiError → Handler S A
  fail e s = (err e, s)

  -- What comes after `?`.
  abbrev pub resume :
      {A B : Type 0}
      → (A → Handler S B)
      → Result A ApiError × AppState S
      → Result B ApiError × AppState S
  resume f (ok a, s) = f a s
  resume f (err e, s) = (err e, s)

  infixl 5 ◌>>=◌ ◌>>◌
  abbrev pub ◌>>=◌ : {A B : Type 0} → Handler S A → (A → Handler S B) → Handler S B
  ◌>>=◌ m f s = resume f (m s)

  abbrev pub ◌>>◌ : {B : Type 0} → Handler S (Unit {0}) → Handler S B → Handler S B
  m >> k = m >>= λ _. k

  abbrev pub require : Bool → ApiError → Handler S (Unit {0})
  require true e s = (ok tt, s)
  require false e s = (err e, s)

  abbrev pub ok_or : {A : Type 0} → Option A → ApiError → Handler S A
  ok_or none e s = (err e, s)
  ok_or (some a) e s = (ok a, s)

  abbrev pub counted : (ServiceMetrics → ServiceMetrics) → AppState S → AppState S
  counted f s = record s { metrics = f s.metrics }

  abbrev pub count : (ServiceMetrics → ServiceMetrics) → Handler S (Unit {0})
  count f s = (ok tt, counted f s)

  abbrev pub inspect : {A : Type 0} → (AppState S → A) → Handler S A
  inspect f s = (ok (f s), s)

  abbrev pub transacted :
      {A : Type 0} → AppState S → Result A TxError × World S → Result A ApiError × AppState S
  transacted s (r, w) = (map_err to_api r, record s { world = w })

  -- A transaction, or a statement that stands alone.
  unfoldable pub transaction : {A : Type 0} → Tx A → Handler S A
  transaction tx s = transacted s (in_transaction tx s.world)

  abbrev pub stored_by :
      {A : Type 0}
      → (StorageError → ApiError)
      → AppState S
      → Result A StorageError × S
      → Result A ApiError × AppState S
  stored_by f s (r, t) = (map_err f r, record s { world = record s.world { store = t } })

  -- A call of the chunk store, with the handler's conversion of its error.
  unfoldable pub on_store :
      {A : Type 0} → (StorageError → ApiError) → (S → Result A StorageError × S) → Handler S A
  on_store f call s = stored_by f s (call s.world.store)

  abbrev next_file_operation : List Bool → Handler S (Unit {0})
  next_file_operation [] s = (ok tt, s)
  next_file_operation (true ∷ faults) s = (err io, record s { file_faults = faults })
  next_file_operation (false ∷ faults) s = (ok tt, record s { file_faults = faults })

  -- An operation on a staging file, which may fail.
  unfoldable pub file_operation : Handler S (Unit {0})
  file_operation s = next_file_operation s.file_faults s

abbrev pub shutting_down : ApiError
shutting_down = api_error 503 "server is shutting down"
