-- ===== src/Protocol/Tests.antt =====
-- An offer of both mechanisms.
use git_cdc.Common.{ℕ, ◌≡◌, ◌↔◌, List, [], ◌∷◌, ok, codes}
use git_cdc.Protocol.{cdc, select_transfer}
use git_cdc.Protocol.Selection.{Chosen, select_transfer_iff}

abbrev both : List (List ℕ)
both = codes "basic" ∷ codes "cdc" ∷ []

select_transfer_iff_example : (select_transfer both ≡ ok cdc) ↔ Chosen both (ok cdc)
select_transfer_iff_example = select_transfer_iff both (ok cdc)
