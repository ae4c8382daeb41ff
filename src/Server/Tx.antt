-- ===== src/Server/Tx.antt =====
-- SQL statements and transactions. A transaction's body is a function of the tables that fails
-- or returns the new tables: what it wrote before a failure is rolled back.
use git_cdc.Common.{
  Bool, true, false, Option, none, some, Result, ok, err, ◌≡◌, subst, if◌then◌else◌,
}
use git_cdc.Server.Schema.{Db}
use git_cdc.Server.Error.{ApiError, database}

pub data SqlError : Type 0 where
  connection unique_violation foreign_key_violation check_violation protocol : SqlError

pub data TxError : Type 0 where
  sql : SqlError → TxError
  api : ApiError → TxError

abbrev pub Tx : Type 0 → Type 0
Tx A = Db → Result (A × Db) TxError

abbrev pub pure : {A : Type 0} → A → Tx A
pure a db = ok (a, db)

abbrev pub fail : {A : Type 0} → TxError → Tx A
fail e db = err e

infixl 5 ◌>>=◌ ◌>>◌
abbrev pub ◌>>=◌ : {A B : Type 0} → Tx A → (A → Tx B) → Tx B
◌>>=◌ m f db = elim (m db) [ ok (a, db') ↦ f a db' | err e ↦ err e ]

abbrev pub ◌>>◌ : {B : Type 0} → Tx (Unit {0}) → Tx B → Tx B
m >> k = m >>= λ _. k

-- A query, and a write.
abbrev pub select : {A : Type 0} → (Db → A) → Tx A
select f db = ok (f db, db)

abbrev pub modify : (Db → Db) → Tx (Unit {0})
modify f db = ok (tt, f db)

-- A constraint of the schema, or a check of the code.
abbrev pub require : Bool → TxError → Tx (Unit {0})
require true e db = ok (tt, db)
require false e db = err e

abbrev pub or_fail : {A : Type 0} → Option A → TxError → Tx A
or_fail none e = fail e
or_fail (some a) e = pure a

-- `map_err(|error| ApiError::database(&error))`
abbrev pub to_api : TxError → ApiError
to_api (sql e) = database
to_api (api e) = e

-- What a body guarantees if it commits.
abbrev pub Commits : {A : Type 0} → (A → Db → Type 0) → Result (A × Db) TxError → Type 0
Commits P (ok (a, db)) = P a db
Commits P (err e) = Unit

pub Commits->>= :
    {A B : Type 0} (P : A → Db → Type 0) (Q : B → Db → Type 0) (m : Tx A) (f : A → Tx B) (db : Db)
    → Commits P (m db)
    → ((a : A) (db' : Db) → P a db' → Commits Q (f a db'))
    → Commits Q ((m >>= f) db)
Commits->>= {A} {B} P Q m f db h k = go (m db) h
  where
    go :
        (r : Result (A × Db) TxError)
        → Commits P r
        → Commits Q (elim r [ ok (a, db') ↦ f a db' | err e ↦ err e ])
    go (ok (a, db')) p = k a db' p
    go (err e) p = tt

-- A statement that succeeds hands its result and its tables on.
pub >>=-eq_of_ok :
    {A B : Type 0} (m : Tx A) (f : A → Tx B) (db : Db) (a : A) (d : Db)
    → m db ≡ ok (a, d)
    → (m >>= f) db ≡ f a d
>>=-eq_of_ok m f db a d e = rw (e, ◌>>=◌)

pub Commits-eq :
    {A : Type 0} (P : A → Db → Type 0) (r : Result (A × Db) TxError) (a : A) (db : Db)
    → Commits P r
    → r ≡ ok (a, db)
    → P a db
Commits-eq P r a db h e = subst (Commits P) e h

-- A body that keeps a property of the tables, if it commits.
pub record Keeps {A : Type 0} (P : Db → Type 0) (m : Tx A) : Type 0 where
  pub keeps : (db : Db) → P db → Commits (λ _ d. P d) (m db)

module _ {P : Db → Type 0} where
  pub Keeps->>= :
      {A B : Type 0} {m : Tx A} {f : A → Tx B}
      → Keeps P m
      → ((a : A) → Keeps P (f a))
      → Keeps P (m >>= f)
  Keeps->>= {m} {f} h k = record {
    keeps = λ db p.
        Commits->>= (λ _ d. P d) (λ _ d. P d) m f db (h.keeps db p) (λ a d q. (k a).keeps d q);
  }

  pub Keeps->> :
      {B : Type 0} {m : Tx (Unit {0})} {n : Tx B} → Keeps P m → Keeps P n → Keeps P (m >> n)
  Keeps->> h k = Keeps->>= h (λ _. k)

  pub Keeps-require : (b : Bool) (e : TxError) → Keeps P (require b e)
  Keeps-require true e = record { keeps = λ db p. p }
  Keeps-require false e = record { keeps = λ db p. tt }

  pub Keeps-or_fail : {A : Type 0} (o : Option A) (e : TxError) → Keeps P (or_fail o e)
  Keeps-or_fail none e = record { keeps = λ db p. tt }
  Keeps-or_fail (some a) e = record { keeps = λ db p. p }

  pub Keeps-pure : {A : Type 0} {a : A} → Keeps P (pure a)
  Keeps-pure = record { keeps = λ db p. p }

  pub Keeps-fail : {A : Type 0} {e : TxError} → Keeps {A = A} P (fail e)
  Keeps-fail = record { keeps = λ db p. tt }

  pub Keeps-select : {A : Type 0} {f : Db → A} → Keeps P (select f)
  Keeps-select = record { keeps = λ db p. p }

  pub Keeps-modify : {f : Db → Db} → ((db : Db) → P db → P (f db)) → Keeps P (modify f)
  Keeps-modify h = record { keeps = h }

  pub Keeps-if :
      {A : Type 0} (b : Bool) {m n : Tx A} → Keeps P m → Keeps P n → Keeps P (if b then m else n)
  Keeps-if true h k = h
  Keeps-if false h k = k

pub ruleset keeping = (
  Keeps->>=, Keeps->>, Keeps-require, Keeps-or_fail, Keeps-pure, Keeps-fail, Keeps-select, Keeps-if,
)
