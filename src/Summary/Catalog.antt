-- ===== src/Summary/Catalog.antt =====
-- The pages that a catalog leads to, and what a summary of them is.
use irods_go_drs.Base.{ℕ, ◌≡◌, ◌%◌, sym, subst, true, false, ◌⊎◌, inl, inr}
use irods_go_drs.Base.{List, [], ◌∷◌, ◌++◌, All, any, map, length, eqb, arith, some, none}
use irods_go_drs.Base.Exec.{ok, err}
use irods_go_drs.Summary.{word, DrsDataObjectSummary, Counted, QueryResponse, ColumnNumbers}
use irods_go_drs.Summary.Pages.{CatalogAnswer, no_rows_found, page, Summarised}
use irods_go_drs.Summary.Totals.{sizes_of, Distinct, Counts}
use irods_go_drs.Summary.Rows.{Seen}
use irods_go_drs.Summary.Adds.{IsRow, IsTagged, Adds}

All-append : (P : ℕ × ℕ → Type 0) (xs ys : List (ℕ × ℕ)) → All P xs → All P ys → All P (xs ++ ys)
All-append P [] ys ps qs = qs
All-append P (x ∷ xs) ys ps qs = (ps.0, All-append P xs ys ps.1 qs)

abbrev pub HasId : ℕ → List (ℕ × ℕ) → Type 0
HasId id objects = any (eqb id) (map (λ o. o.0) objects) ≡ true

HasId-append :
    (id : ℕ) (more objects : List (ℕ × ℕ)) → HasId id objects → HasId id (more ++ objects)
HasId-append id [] objects h = h
HasId-append id (o ∷ more) objects h = ground (arith, HasId-append id more objects h)

Seen-HasId :
    (id : ℕ) (objects : List (ℕ × ℕ)) (c : Counted)
    → Counts objects c
    → Seen id c
    → HasId id objects
Seen-HasId id objects c v h = subst (λ ids. any (eqb id) ids ≡ true) v.0 h

HasId-Seen :
    (id : ℕ) (objects : List (ℕ × ℕ)) (c : Counted)
    → Counts objects c
    → HasId id objects
    → Seen id c
HasId-Seen id objects c v h = subst (λ ids. any (eqb id) ids ≡ true) (sym v.0) h

module _ (numbers : ColumnNumbers) (request : ℕ → CatalogAnswer) where
  -- The pages of the catalog lead from one index to the other.
  pub data Leads : ℕ → ℕ → Type 0 where
    arrived : {i : ℕ} → Leads i i
    leads_on :
        {i j : ℕ} (n : ℕ) (response : QueryResponse)
        → request i ≡ page response n
        → eqb n 0 ≡ false
        → Leads n j
        → Leads i j

  pub Leads-next :
      {i j : ℕ} (n : ℕ) (response : QueryResponse)
      → Leads i j
      → request j ≡ page response n
      → eqb n 0 ≡ false
      → Leads i n
  Leads-next n response arrived e more = leads_on n response e more arrived
  Leads-next n response (leads_on m r e' more' l) e more =
      leads_on m r e' more' (Leads-next n response l e more)

  -- A page that the index leads to.
  abbrev pub IsPageFrom : ℕ → QueryResponse → Type 0
  IsPageFrom index response = (j : ℕ) × (n : ℕ) × Leads index j × (request j ≡ page response n)

  -- The data object has a row on a page of the catalog.
  abbrev pub IsFromCatalog : ℕ × ℕ → Type 0
  IsFromCatalog o = (response : QueryResponse) × IsPageFrom 0 response × IsRow numbers response o

  -- The summary of data objects with different ids, each of which has a row with its size, and among
  -- which are all that a page behind the index tags.
  abbrev pub Summarises : ℕ → (ℕ → Type 0) → DrsDataObjectSummary → Type 0
  Summarises index Known s =
      (objects : List (ℕ × ℕ)) × Distinct (map (λ o. o.0) objects)
      × (s.data_object_count ≡ length objects % word)
      × (s.total_size ≡ sizes_of objects % word)
      × All IsFromCatalog objects
      × ((id : ℕ) → Known id → HasId id objects)
      × ((id : ℕ) (response : QueryResponse)
          → IsPageFrom index response
          → IsTagged numbers response id
          → HasId id objects)

  -- The query ended, and what it returned summarises data objects.
  abbrev pub EndsWith : ℕ → (ℕ → Type 0) → Summarised → Type 0
  EndsWith index Known none = ⊥
  EndsWith index Known (some (err e)) = Unit
  EndsWith index Known (some (ok s)) = Summarises index Known s

  abbrev pub IsSoFar : Counted → Type 0
  IsSoFar c = (objects : List (ℕ × ℕ)) × Counts objects c × All IsFromCatalog objects

  first_page :
      {index j : ℕ} (n : ℕ) (response : QueryResponse)
      → Leads index j
      → request j ≡ page response n
      → (r : QueryResponse) × (m : ℕ) × (request index ≡ page r m)
  first_page n response arrived e = (response, n, e)
  first_page n response (leads_on m r e' more l) e = (r, m, e')

  -- The end of the loop where the index leads to no page.
  pub without_page :
      (index : ℕ) (c : Counted)
      → IsSoFar c
      → request index ≡ no_rows_found
      → Summarises index (λ id. Seen id c) c.summary
  without_page index c v e = (
    v.0,
    v.1.1,
    v.1.2,
    v.1.3,
    v.2,
    λ id h. Seen-HasId id v.0 c v.1 h,
    λ id response (j, n, l, h) t. absurd (no_page (first_page n response l h)),
  )
    where
      no_page : (r : QueryResponse) × (n : ℕ) × (request index ≡ page r n) → ⊥
      no_page (r, n, h) = ground (arith, e)

  rows_from :
      (index n : ℕ) (response : QueryResponse) (more : List (ℕ × ℕ))
      → Leads 0 index
      → request index ≡ page response n
      → All (IsRow numbers response) more
      → All IsFromCatalog more
  rows_from index n response [] l e h = tt
  rows_from index n response (o ∷ more) l e h =
      ((response, (index, n, l, e), h.0), rows_from index n response more l e h.1)

  -- What the catalog leads to from a page: the page itself, or a page behind its next index.
  here_or_later :
      {index j : ℕ} (m n : ℕ) (r response : QueryResponse)
      → request index ≡ page r m
      → Leads index j
      → request j ≡ page response n
      → (response ≡ r) ⊎ ((eqb m 0 ≡ false) × IsPageFrom m response)
  here_or_later m n r response h arrived e = inl (ground (arith, h, e))
  here_or_later m n r response h (leads_on m' r' e' more l) e =
      inr (subst (λ k. (eqb k 0 ≡ false) × IsPageFrom k response) next (more, (_, n, l, e)))
    where
      next : m' ≡ m
      next = ground (arith, h, e')

  module _ (index : ℕ) (c : Counted) (v : IsSoFar c) (l : Leads 0 index) (response : QueryResponse)
      (n : ℕ) (e : request index ≡ page response n) (c' : Counted)
      (adds : Adds numbers response v.0 c') where
    abbrev both : List (ℕ × ℕ)
    both = adds.0 ++ v.0

    both-IsFromCatalog : All IsFromCatalog both
    both-IsFromCatalog =
        All-append IsFromCatalog adds.0 v.0 (rows_from index n response adds.0 l e adds.2) v.2

    pub later_IsSoFar : IsSoFar c'
    later_IsSoFar = (both, adds.1, both-IsFromCatalog)

    kept_Seen : (id : ℕ) → Seen id c → Seen id c'
    kept_Seen id h =
        HasId-Seen id both c' adds.1 (HasId-append id adds.0 v.0 (Seen-HasId id v.0 c v.1 h))

    -- The last page.
    pub last_page : eqb n 0 ≡ true → Summarises index (λ id. Seen id c) c'.summary
    last_page last = (
      both,
      adds.1.1,
      adds.1.2,
      adds.1.3,
      both-IsFromCatalog,
      λ id h. Seen-HasId id both c' adds.1 (kept_Seen id h),
      λ id r (j, m, leads, h) t. of_place id r t (here_or_later n m response r e leads h),
    )
      where
        of_place :
            (id : ℕ) (r : QueryResponse)
            → IsTagged numbers r id
            → (r ≡ response) ⊎ ((eqb n 0 ≡ false) × IsPageFrom n r)
            → HasId id both
        of_place id r t (inl same) =
            Seen-HasId id both c' adds.1 (adds.3 id (subst (λ x. IsTagged numbers x id) same t))
        of_place id r t (inr later) = absurd (ground (arith, last, later.0))

    -- A page before others.
    earlier_page :
        (s : DrsDataObjectSummary)
        → Summarises n (λ id. Seen id c') s
        → Summarises index (λ id. Seen id c) s
    earlier_page s (objects, d, k, z, from, known, behind) = (
      objects,
      d,
      k,
      z,
      from,
      λ id h. known id (kept_Seen id h),
      λ id r (j, m, leads, h) t. of_place id r t (here_or_later n m response r e leads h),
    )
      where
        of_place :
            (id : ℕ) (r : QueryResponse)
            → IsTagged numbers r id
            → (r ≡ response) ⊎ ((eqb n 0 ≡ false) × IsPageFrom n r)
            → HasId id objects
        of_place id r t (inl same) =
            known id (adds.3 id (subst (λ x. IsTagged numbers x id) same t))
        of_place id r t (inr later) = behind id r later.1 t

    pub earlier_EndsWith :
        (r : Summarised) → EndsWith n (λ id. Seen id c') r → EndsWith index (λ id. Seen id c) r
    earlier_EndsWith none h = h
    earlier_EndsWith (some (err x)) h = tt
    earlier_EndsWith (some (ok s)) h = earlier_page s h
