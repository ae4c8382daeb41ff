-- ===== src/Server/World/Atomic.antt =====
-- A transaction happens whole or not at all, and does not touch the object store.
use git_cdc.Common.{◌≡◌, refl, ◌⊎◌, inl, inr, Bool, true, false, List, [], ◌∷◌, Result, ok, err}
use git_cdc.Server.Schema.{Db}
use git_cdc.Server.Tx.{Tx, TxError}
use git_cdc.Server.World.{World, in_transaction, faulty, committed}

module _ {S A : Type 0} where
  -- What became of a transaction over the world `w`.
  abbrev pub Ended : Tx A → World S → Result A TxError × World S → Type 0
  Ended tx w (r, w') =
      (w'.store ≡ w.store)
      × (((e : TxError) × (r ≡ err e) × (w'.db ≡ w.db))
          ⊎ ((a : A) × (r ≡ ok a) × (tx w.db ≡ ok (a, w'.db))))

  committed-Ended :
      (tx : Tx A) (r : Result (A × Db) TxError) (w v : World S)
      → tx w.db ≡ r
      → v.db ≡ w.db
      → v.store ≡ w.store
      → Ended tx w (committed r v)
  committed-Ended tx (ok (a, db)) w v e same kept = (kept, inr (a, refl, e))
  committed-Ended tx (err x) w v e same kept = (kept, inl (x, refl, same))

  faulty-Ended : (fs : List Bool) (tx : Tx A) (w : World S) → Ended tx w (faulty fs tx w)
  faulty-Ended [] tx w = committed-Ended tx (tx w.db) w w refl refl refl
  faulty-Ended (true ∷ fs) tx w = (refl, inl (_, refl, refl))
  faulty-Ended (false ∷ fs) tx w = committed-Ended tx (tx w.db) w _ refl refl refl

  pub in_transaction-Ended : (tx : Tx A) (w : World S) → Ended tx w (in_transaction tx w)
  unfolding in_transaction
  in_transaction-Ended tx w = faulty-Ended w.faults tx w

  -- With no fault to come, the body's outcome is the transaction's.
  pub in_transaction-ok :
      (tx : Tx A) (w : World S) (a : A) (db : Db)
      → w.faults ≡ []
      → tx w.db ≡ ok (a, db)
      → in_transaction tx w ≡ (ok a, record w { db = db })
  unfolding in_transaction
  in_transaction-ok tx w a db f e = rw (f, e)

  pub in_transaction-err :
      (tx : Tx A) (w : World S) (x : TxError)
      → w.faults ≡ []
      → tx w.db ≡ err x
      → in_transaction tx w ≡ (err x, w)
  unfolding in_transaction
  in_transaction-err tx w x f e = rw (f, e)
