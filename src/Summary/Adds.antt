-- ===== src/Summary/Adds.antt =====
-- What a page adds to a summary.
use irods_go_drs.Base.{ℕ, ◌<◌, ◌≡◌, refl, subst}
use irods_go_drs.Base.{
  List, [], ◌∷◌, ◌++◌, All, Option, none, some, eqb, arith, inl, inr, Bool-cases,
}
use irods_go_drs.Base.Exec.{Result, ok, err}
use irods_go_drs.Text.{Text}
use irods_go_drs.Summary.{
  SummaryError, Counted, Columns, QueryResponse, ColumnNumbers, sql_result_values, with_columns,
  append_drs_data_object_summary_rows,
}
use irods_go_drs.Summary.Totals.{Counts, OnSuccess}
use irods_go_drs.Summary.Rows.{IsRowOf, IsObjectRow, Seen, IsAdded, append_rows-IsAdded}

-- The four columns of a page that has them all.
abbrev pub all_columns :
    Option (List Text)
    → Option (List Text)
    → Option (List Text)
    → Option (List Text)
    → Option Columns
all_columns (some ids) (some sizes) (some values) (some units) =
    some (record { ids = ids; sizes = sizes; values = values; units = units })
all_columns none sizes values units = none
all_columns (some ids) none values units = none
all_columns (some ids) (some sizes) none units = none
all_columns (some ids) (some sizes) (some values) none = none

module _ (numbers : ColumnNumbers) (response : QueryResponse) where
  abbrev pub columns_of : Option Columns
  columns_of =
      all_columns (sql_result_values numbers.data_id response.sql_result)
        (sql_result_values numbers.data_size response.sql_result)
        (sql_result_values numbers.attr_value response.sql_result)
        (sql_result_values numbers.attr_units response.sql_result)

  -- A row of the page has a valid DRS id on this data object, with this size.
  abbrev pub IsRow : ℕ × ℕ → Type 0
  IsRow o =
      (columns : Columns) × (columns_of ≡ some columns) × IsObjectRow columns response.row_count o

  -- A row of the page has a valid DRS id on the data object with this data id.
  abbrev pub IsTagged : ℕ → Type 0
  IsTagged id =
      (columns : Columns) × (columns_of ≡ some columns)
      × ((i : ℕ) × (i < response.row_count) × IsRowOf columns i id)

  -- The summary counts the given objects and further rows of the page, and each data object that a row
  -- of the page tags is among them.
  abbrev pub Adds : List (ℕ × ℕ) → Counted → Type 0
  Adds objects c =
      (more : List (ℕ × ℕ)) × Counts (more ++ objects) c
      × All IsRow more
      × ((id : ℕ) → IsTagged id → Seen id c)

  rows_of_page :
      (columns : Columns) (more : List (ℕ × ℕ))
      → columns_of ≡ some columns
      → All (IsObjectRow columns response.row_count) more
      → All IsRow more
  rows_of_page columns [] e h = tt
  rows_of_page columns (o ∷ more) e h = ((columns, e, h.0), rows_of_page columns more e h.1)

  of_columns :
      (objects : List (ℕ × ℕ)) (c : Counted) (columns : Columns) (r : Result SummaryError Counted)
      → columns_of ≡ some columns
      → OnSuccess (IsAdded columns response.row_count objects response.row_count) r
      → OnSuccess (Adds objects) r
  of_columns objects c columns (err x) e v = tt
  of_columns objects c columns (ok c') e v = (
    v.0,
    v.1,
    rows_of_page columns v.0 e v.2,
    λ id (other, o, (i, b, h)). v.3 i id b (subst (λ cs. IsRowOf cs i id) (same other o) h),
  )
    where
      same : (other : Columns) → columns_of ≡ some other → other ≡ columns
      same other o = ground (arith, e, o)

  with_columns-Adds :
      (objects : List (ℕ × ℕ)) (c : Counted) (ids sizes values units : Option (List Text))
      → columns_of ≡ all_columns ids sizes values units
      → Counts objects c
      → OnSuccess (Adds objects) (with_columns response.row_count c ids sizes values units)
  with_columns-Adds objects c (some ids) (some sizes) (some values) (some units) e v =
      of_columns objects c _ _ e (
        append_rows-IsAdded _ response.row_count objects response.row_count 0 c (omega arith)
          ([], v, tt, λ i id b h. absurd (omega (arith, b))))
  with_columns-Adds objects c none sizes values units e v = tt
  with_columns-Adds objects c (some ids) none values units e v = tt
  with_columns-Adds objects c (some ids) (some sizes) none units e v = tt
  with_columns-Adds objects c (some ids) (some sizes) (some values) none e v = tt

  -- If the summary so far counts these data objects, with different ids that are the ones seen, then a page
  -- that is added without an error leaves a summary that counts them and more, again with different ids
  -- that are the ones seen: the count is their number and the size the sum of their sizes, both modulo
  -- 2^64. The further ones have the ids and sizes of rows of the page with a valid DRS id, and every
  -- data object that such a row stands for is counted.
  pub append_rows-Adds :
      (objects : List (ℕ × ℕ)) (c : Counted)
      → Counts objects c
      → OnSuccess (Adds objects) (append_drs_data_object_summary_rows numbers response c)
  unfolding append_drs_data_object_summary_rows
  append_rows-Adds objects c v = elim (Bool-cases (eqb response.row_count 0)) [
    | inl empty ↦
        rw empty ([], v, tt, λ id (other, o, (i, b, h)). absurd (ground (arith, empty, b)))
    | inr rows ↦ rw rows (with_columns-Adds objects c _ _ _ _ refl v)
  ]
