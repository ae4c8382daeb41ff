-- ===== src/Server/Service/Laws.antt =====
-- How a handler that succeeds came to succeed, and handlers that leave the tables alone.
use git_cdc.Common.{
  ◌≡◌, refl, ◌∙◌, inl, inr, Bool, true, false, Option, none, some, Result, ok, err, arith, map_err,
  if◌then◌else◌,
}
use git_cdc.Server.Error.{ApiError}
use git_cdc.Server.Schema.{Db}
use git_cdc.Server.Tx.{Tx, TxError, Keeps, Commits-eq}
use git_cdc.Server.World.{World, in_transaction}
use git_cdc.Server.World.Atomic.{Ended, in_transaction-Ended}
use git_cdc.Server.Service.{
  AppState, ServiceMetrics, Handler, resume, ◌>>=◌, ◌>>◌, pure, fail, respond, require, ok_or,
  count, inspect, transacted, transaction, stored_by, on_store, file_operation,
}
use git_cdc.Storage.{StorageError}

pub map_err-ok :
    {A E F : Type 0} (f : E → F) (r : Result A E) (a : A) → map_err f r ≡ ok a → r ≡ ok a
map_err-ok f (ok x) a h = cc
map_err-ok f (err e) a h = absurd (cc)

module _ {S : Type 0} where
  resume-ok :
      {A B : Type 0} (f : A → Handler S B) (r : Result A ApiError × AppState S) (b : B)
      (t : AppState S)
      → resume f r ≡ (ok b, t)
      → (a : A) × (s' : AppState S) × (r ≡ (ok a, s')) × (f a s' ≡ (ok b, t))
  resume-ok f (ok a, s') b t h = (a, s', refl, h)
  resume-ok f (err e, s') b t h = absurd (cc)

  -- A handler that goes on after `?` and succeeds has had a success before.
  pub >>=-ok :
      {A B : Type 0} (m : Handler S A) (f : A → Handler S B) (s : AppState S) (b : B)
      (t : AppState S)
      → (m >>= f) s ≡ (ok b, t)
      → (a : A) × (s' : AppState S) × (m s ≡ (ok a, s')) × (f a s' ≡ (ok b, t))
  >>=-ok m f s b t h = resume-ok f (m s) b t h

  -- The same, for a goal that names what lies between.
  pub through :
      {A B C : Type 0} (m : Handler S A) (f : A → Handler S B) (s : AppState S) {b : B}
      {t : AppState S}
      → (m >>= f) s ≡ (ok b, t)
      → ((a : A) (s' : AppState S) → m s ≡ (ok a, s') → f a s' ≡ (ok b, t) → C)
      → C
  through m f s {b} {t} h k = let (a, s', e, rest) = >>=-ok m f s b t h in k a s' e rest

  require-cases :
      {A : Type 0} (c : Bool) (e : ApiError) (k : Handler S A) (s : AppState S) (a : A)
      (t : AppState S)
      → (require c e >> k) s ≡ (ok a, t)
      → (c ≡ true) × (k s ≡ (ok a, t))
  require-cases true e k s a t h = (refl, h)
  require-cases false e k s a t h = absurd (cc)

  -- Past a guard.
  pub past :
      {A C : Type 0} (c : Bool) (e : ApiError) (k : Handler S A) (s : AppState S) {a : A}
      {t : AppState S}
      → (require c e >> k) s ≡ (ok a, t)
      → (c ≡ true → k s ≡ (ok a, t) → C)
      → C
  past c e k s {a} {t} h next = let (test, rest) = require-cases c e k s a t h in next test rest

  pub require-ok :
      (b : Bool) (e : ApiError) (s t : AppState S) (a : Unit {0})
      → require b e s ≡ (ok a, t)
      → (b ≡ true) × (t ≡ s)
  require-ok true e s t a h = (refl, cc)
  require-ok false e s t a h = absurd (cc)

  pub ok_or-ok :
      {A : Type 0} (o : Option A) (e : ApiError) (s t : AppState S) (a : A)
      → ok_or o e s ≡ (ok a, t)
      → (o ≡ some a) × (t ≡ s)
  ok_or-ok none e s t a h = absurd (cc)
  ok_or-ok (some x) e s t a h = (cc, cc)

  stored_by-ok :
      {A : Type 0} (f : StorageError → ApiError) (s t : AppState S) (r : Result A StorageError × S)
      (a : A)
      → stored_by f s r ≡ (ok a, t)
      → (r ≡ (ok a, t.world.store)) × (t.world.db ≡ s.world.db)
  stored_by-ok f s t (ok x, v) a h = (cc, cc)
  stored_by-ok f s t (err x, v) a h = absurd (cc)

  -- A call of the store that succeeds: its result, and that it is all that happens.
  pub on_store-ok :
      {A : Type 0} (f : StorageError → ApiError) (call : S → Result A StorageError × S)
      (s t : AppState S) (a : A)
      → on_store f call s ≡ (ok a, t)
      → (call s.world.store ≡ (ok a, t.world.store)) × (t.world.db ≡ s.world.db)
  unfolding on_store
  on_store-ok f call s t a h = stored_by-ok f s t (call s.world.store) a h

  transacted-ok :
      {A : Type 0} (s t : AppState S) (r : Result A TxError × World S) (a : A)
      → transacted s r ≡ (ok a, t)
      → r ≡ (ok a, t.world)
  transacted-ok s t (ok x, w) a h = cc
  transacted-ok s t (err x, w) a h = absurd (cc)

  Ended-ok :
      {A : Type 0} (tx : Tx A) (w w' : World S) (r : Result A TxError) (a : A)
      → Ended tx w (r, w')
      → r ≡ ok a
      → (tx w.db ≡ ok (a, w'.db)) × (w'.store ≡ w.store)
  Ended-ok tx w w' r a (kept, inl (e, failed, _)) h = absurd (cc)
  Ended-ok tx w w' r a (kept, inr (x, done, e)) h = (cc, kept)

  -- A transaction that succeeds has committed what its body returns.
  pub transaction-ok :
      {A : Type 0} (tx : Tx A) (s t : AppState S) (a : A)
      → transaction tx s ≡ (ok a, t)
      → (tx s.world.db ≡ ok (a, t.world.db)) × (t.world.store ≡ s.world.store)
  unfolding transaction
  transaction-ok tx s t a h =
      let e = transacted-ok s t (in_transaction tx s.world) a h in
      Ended-ok tx s.world t.world (ok a) a (rw e at (in_transaction-Ended tx s.world)) refl

  -- A handler that leaves the tables as they are, whether it succeeds or fails.
  pub record Reads {A : Type 0} (m : Handler S A) : Type 0 where
    pub keeps : (s : AppState S) → (m s).1.world.db ≡ s.world.db

  resume-keeps :
      {A B : Type 0} (f : A → Handler S B) (r : Result A ApiError × AppState S) (db : Db)
      → ((a : A) → Reads (f a))
      → r.1.world.db ≡ db
      → (resume f r).1.world.db ≡ db
  resume-keeps f (ok a, s) db k h = (k a).keeps s ∙ h
  resume-keeps f (err e, s) db k h = h

  pub Reads->>= :
      {A B : Type 0} {m : Handler S A} {f : A → Handler S B}
      → Reads m
      → ((a : A) → Reads (f a))
      → Reads (m >>= f)
  Reads->>= {m} {f} h k = record { keeps = λ s. resume-keeps f (m s) s.world.db k (h.keeps s) }

  pub Reads->> :
      {B : Type 0} {m : Handler S (Unit {0})} {n : Handler S B} → Reads m → Reads n → Reads (m >> n)
  Reads->> h k = Reads->>= h (λ _. k)

  pub Reads-respond : {A : Type 0} (r : Result A ApiError) → Reads (respond r)
  Reads-respond r = record { keeps = λ s. refl }

  pub Reads-pure : {A : Type 0} (a : A) → Reads (pure a)
  Reads-pure a = record { keeps = λ s. refl }

  pub Reads-fail : {A : Type 0} (e : ApiError) → Reads (fail {A = A} e)
  Reads-fail e = record { keeps = λ s. refl }

  pub Reads-require : (b : Bool) (e : ApiError) → Reads (require b e)
  Reads-require true e = record { keeps = λ s. refl }
  Reads-require false e = record { keeps = λ s. refl }

  pub Reads-ok_or : {A : Type 0} (o : Option A) (e : ApiError) → Reads (ok_or o e)
  Reads-ok_or none e = record { keeps = λ s. refl }
  Reads-ok_or (some a) e = record { keeps = λ s. refl }

  pub Reads-count : (f : ServiceMetrics → ServiceMetrics) → Reads (count f)
  Reads-count f = record { keeps = λ s. refl }

  pub Reads-inspect : {A : Type 0} (f : AppState S → A) → Reads (inspect f)
  Reads-inspect f = record { keeps = λ s. refl }

  stored_by-keeps :
      {A : Type 0} (f : StorageError → ApiError) (s : AppState S) (r : Result A StorageError × S)
      → (stored_by f s r).1.world.db ≡ s.world.db
  stored_by-keeps f s (r, v) = refl

  pub Reads-on_store :
      {A : Type 0} (f : StorageError → ApiError) (call : S → Result A StorageError × S)
      → Reads (on_store f call)
  unfolding on_store
  Reads-on_store f call = record { keeps = λ s. stored_by-keeps f s (call s.world.store) }

  pub Reads-file_operation : Reads {A = Unit {0}} file_operation
  unfolding file_operation
  Reads-file_operation = record { keeps = λ s. ground arith }

  transacted-keeps :
      {A : Type 0} (s : AppState S) (r : Result A TxError × World S) (db : Db)
      → r.1.db ≡ db
      → (transacted s r).1.world.db ≡ db
  transacted-keeps s (r, w) db h = h

  Ended-db :
      {A : Type 0} (tx : Tx A) (w w' : World S) (r : Result A TxError)
      → ((db : Db) → Keeps (λ d. d ≡ db) tx)
      → Ended tx w (r, w')
      → w'.db ≡ w.db
  Ended-db tx w w' r k (kept, inl (e, failed, same)) = same
  Ended-db tx w w' r k (kept, inr (x, done, e)) =
      Commits-eq (λ _ d. d ≡ w.db) (tx w.db) x w'.db ((k w.db).keeps w.db refl) e

  -- A transaction of queries.
  pub Reads-transaction :
      {A : Type 0} {tx : Tx A} → ((db : Db) → Keeps (λ d. d ≡ db) tx) → Reads (transaction tx)
  unfolding transaction
  Reads-transaction {tx} k = record {
    keeps = λ s. transacted-keeps s (in_transaction tx s.world) s.world.db (
        Ended-db tx s.world (in_transaction tx s.world).1 (in_transaction tx s.world).0 k
          (in_transaction-Ended tx s.world));
  }

  pub Reads-if :
      {A : Type 0} (b : Bool) {m n : Handler S A} → Reads m → Reads n → Reads (if b then m else n)
  Reads-if true h k = h
  Reads-if false h k = k

  -- With the same tables before and after.
  pub Reads-eq :
      {A : Type 0} (m : Handler S A) (s t : AppState S) (r : Result A ApiError)
      → Reads m
      → m s ≡ (r, t)
      → t.world.db ≡ s.world.db
  Reads-eq m s t r h e = rw e at (h.keeps s)

pub ruleset reading = (
  Reads->>=, Reads->>, Reads-respond, Reads-pure, Reads-fail, Reads-require, Reads-ok_or,
  Reads-count, Reads-inspect, Reads-on_store, Reads-file_operation, Reads-transaction, Reads-if,
)
