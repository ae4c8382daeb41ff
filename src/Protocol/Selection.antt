-- ===== src/Protocol/Selection.antt =====
-- What is selected was offered, and is the best of what was.
use git_cdc.Common.{
  ℕ, true, ◌≡◌, ◌≢◌, ◌↔◌, ◌⊎◌, List, [], ◌∷◌, any, Result, ok, err, list_eq, list_eq_iff, codes,
  arith,
}
use git_cdc.Protocol.{
  TransferKind, basic, cdc, as_str, TransferSelectionError, unsupported, select_transfer,
}

-- The name stands in the list.
abbrev pub Offered : List ℕ → List (List ℕ) → Type 0
Offered name [] = ⊥
Offered name (t ∷ ts) = (t ≡ name) ⊎ Offered name ts

any-Offered :
    (name : List ℕ) (ts : List (List ℕ))
    → (any (λ transfer. list_eq transfer name) ts ≡ true) ↔ Offered name ts
any-Offered name [] = ground arith
any-Offered name (t ∷ ts) = ground (arith, list_eq_iff t name, any-Offered name ts)

-- What the answer says of the offer: `cdc` was offered; or `basic` is the choice of an empty offer, or
-- was offered without `cdc`; or neither was, in an offer that is not empty.
abbrev pub Chosen : List (List ℕ) → Result TransferKind TransferSelectionError → Type 0
Chosen ts (ok cdc) = Offered (as_str cdc) ts
Chosen ts (ok basic) = (ts ≡ []) ⊎ Offered (as_str basic) ts × (Offered (as_str cdc) ts → ⊥)
Chosen ts (err e) = (ts ≢ []) × (Offered (as_str cdc) ts → ⊥) × (Offered (as_str basic) ts → ⊥)

-- `select_transfer` answers `cdc` exactly if it was offered; `basic` if the offer is empty, or has
-- `basic` and not `cdc`; and an error if the offer is not empty and has neither.
pub select_transfer_iff :
    (ts : List (List ℕ)) (r : Result TransferKind TransferSelectionError)
    → (select_transfer ts ≡ r) ↔ Chosen ts r
unfolding select_transfer as_str
select_transfer_iff [] (ok basic) = ground arith
select_transfer_iff [] (ok cdc) = ground arith
select_transfer_iff [] (err unsupported) = ground arith
select_transfer_iff (t ∷ ts) (ok basic) =
    ground (arith, any-Offered (codes "cdc") (t ∷ ts), any-Offered (codes "basic") (t ∷ ts))
select_transfer_iff (t ∷ ts) (ok cdc) =
    ground (arith, any-Offered (codes "cdc") (t ∷ ts), any-Offered (codes "basic") (t ∷ ts))
select_transfer_iff (t ∷ ts) (err unsupported) =
    ground (arith, any-Offered (codes "cdc") (t ∷ ts), any-Offered (codes "basic") (t ∷ ts))
