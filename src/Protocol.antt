-- ===== src/Protocol.antt =====
-- crates/git-lfs-delta-protocol/src/lfs.rs: the choice of a transfer mechanism.
pub mod Selection
pub mod Messages
mod Tests
use git_cdc.Common.{
  ℕ, Bool, true, false, List, [], ◌∷◌, any, Result, ok, err, list_eq, codes, if◌then◌else◌,
}

pub data TransferKind : Type 0 where
  basic cdc : TransferKind

-- `TransferKind::as_str`
pub as_str : TransferKind → List ℕ
as_str basic = codes "basic"
as_str cdc = codes "cdc"

pub data TransferSelectionError : Type 0 where
  unsupported : TransferSelectionError

unfoldable pub select_transfer : List (List ℕ) → Result TransferKind TransferSelectionError
select_transfer [] = ok basic
select_transfer (t ∷ ts) =
    if any (λ transfer. list_eq transfer (codes "cdc")) (t ∷ ts)
    then ok cdc
    else if any (λ transfer. list_eq transfer (codes "basic")) (t ∷ ts)
    then ok basic
    else err unsupported
