-- ===== src/Summary/Ends.antt =====
-- The summary of a catalog whose pages end.
use irods_go_drs.Base.{ℕ, ◌≡◌, false}
use irods_go_drs.Base.{eqb}
use irods_go_drs.Summary.{Counted, QueryResponse, ColumnNumbers}
use irods_go_drs.Summary.Pages.{CatalogAnswer, page, Summarised}
use irods_go_drs.Summary.Rows.{Seen}
use irods_go_drs.Summary.Adds.{Adds}
use irods_go_drs.Summary.Catalog.{Leads, IsSoFar, EndsWith}

module _ (numbers : ColumnNumbers) (request : ℕ → CatalogAnswer) where
  -- The steps of the loop, for what follows it.
  module _ (next : ℕ → Counted → Summarised) (index : ℕ) (c : Counted)
      (v : IsSoFar numbers request c) (l : Leads numbers request 0 index) where
    abbrev FollowsUp : CatalogAnswer → Type 0
    FollowsUp answer =
        (response : QueryResponse) (n : ℕ)
        → answer ≡ page response n
        → eqb n 0 ≡ false
        → (c' : Counted) → IsSoFar numbers request c'
        → EndsWith numbers request n (λ id. Seen id c') (next n c')
