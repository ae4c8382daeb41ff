-- ===== src/Server/World.antt =====
-- The state that the server's code runs over: the tables, and the object store's own state.
-- `faults` says, for each coming transaction, whether its connection fails; a transaction that
-- fails leaves the tables as they were. An empty list means no more faults.
pub mod Atomic
use git_cdc.Common.{Bool, true, false, List, [], ◌∷◌, Result, ok, err}
use git_cdc.Server.Schema.{Db}
use git_cdc.Server.Tx.{Tx, TxError, sql, connection}

pub record World (S : Type 0) : Type 0 where
  pub db : Db
  pub store : S
  pub faults : List Bool

module _ {S A : Type 0} where
  -- `begin`, the statements, `commit`.
  abbrev pub committed : Result (A × Db) TxError → World S → Result A TxError × World S
  committed (ok (a, db)) w = (ok a, record w { db = db })
  committed (err e) w = (err e, w)

  abbrev pub faulty : List Bool → Tx A → World S → Result A TxError × World S
  faulty [] tx w = committed (tx w.db) w
  faulty (true ∷ fs) tx w = (err (sql connection), record w { faults = fs })
  faulty (false ∷ fs) tx w = committed (tx w.db) (record w { faults = fs })

  unfoldable pub in_transaction : Tx A → World S → Result A TxError × World S
  in_transaction tx w = faulty w.faults tx w
