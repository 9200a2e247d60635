-- ===== src/Summary.antt =====
-- `appendDrsDataObjectSummaryRows` (drs-support/drs_object_summary.go): one page of catalog rows is added
-- to the summary. The numbers of the catalog's columns are those of the client library. A row count is
-- not negative.
pub mod Totals
pub mod Rows
pub mod Pages
pub mod Adds
pub mod Catalog
pub mod Ends
use irods_go_drs.Base.{
  ℕ, zero, suc, ◌+◌, ◌-◌, ◌*◌, ◌%◌, Bool, true, false, ◌&&◌, ◌||◌, not, Option, none, some,
}
use irods_go_drs.Base.{List, [], ◌∷◌, any, is_nil, leb, eqb, ltb, if◌then◌else◌}
use irods_go_drs.Base.Exec.{Result, ok, err}
use irods_go_drs.Text.{Text, codes, trim_space, equal_fold}
use irods_go_drs.Metadata.Attributes.{drs_avu_unit}

pub data SummaryError : Type 0 where
  missing_column : Text → SummaryError
  missing_value : Text → ℕ → SummaryError
  not_a_number negative : Text → SummaryError

-- An `int64` is held as its 64 bits, read as a number below 2^64.
abbrev pub word : ℕ
word = 18446744073709551616

pub record DrsDataObjectSummary : Type 0 where
  pub data_object_count : ℕ
  pub total_size : ℕ

-- The summary with `seenDataIDs`.
pub record Counted : Type 0 where
  pub summary : DrsDataObjectSummary
  pub seen_data_ids : List ℕ

-- `message.IRODSMessageQueryResponse`, as far as it is read: columns by their numbers.
pub record QueryResponse : Type 0 where
  pub row_count : ℕ
  pub sql_result : List (ℕ × List Text)

pub record ColumnNumbers : Type 0 where
  pub data_id : ℕ
  pub data_size : ℕ
  pub attr_value : ℕ
  pub attr_units : ℕ

unfoldable pub is_valid_drs_id_avu_value : Text → Text → Bool
is_valid_drs_id_avu_value value units =
    if is_nil (trim_space value)
    then false
    else is_nil (trim_space units) || equal_fold (trim_space units) drs_avu_unit

-- `sqlResultValues`: the values of the first column with the number.
unfoldable pub sql_result_values : ℕ → List (ℕ × List Text) → Option (List Text)
sql_result_values column [] = none
sql_result_values column (c ∷ columns) =
    let rest = sql_result_values column columns in if eqb c.0 column then some c.1 else rest

unfoldable pub nth : List Text → ℕ → Option Text
nth [] n = none
nth (t ∷ ts) zero = some t
nth (t ∷ ts) (suc n) = nth ts n

unfoldable pub sql_result_row_value : List Text → ℕ → Text → Result SummaryError Text
sql_result_row_value values row column_name = elim (nth values row) [
  | none ↦ err (missing_value column_name row)
  | some t ↦ ok t
]

-- The number that decimal digits stand for, from the number so far.
unfoldable pub digits : ℕ → Text → Option ℕ
digits n [] = some n
digits n (c ∷ s) =
    let rest = digits (n * 10 + (c - 48)) s in if leb 48 c && leb c 57 then rest else none

-- A number in front of 2^63, or an error.
abbrev pub in_range : Text → Option ℕ → Result SummaryError ℕ
in_range column none = err (not_a_number column)
in_range column (some n) = if ltb n 9223372036854775808 then ok n else err (not_a_number column)

-- A number behind a minus sign: zero is none the less accepted.
abbrev pub negated : Text → Option ℕ → Result SummaryError ℕ
negated column none = err (not_a_number column)
negated column (some zero) = ok zero
negated column (some (suc n)) =
    if ltb n 9223372036854775808 then err (negative column) else err (not_a_number column)

-- `strconv.ParseInt` to base 10 and 64 bits, with the test for a negative number.
unfoldable pub parse_int : Text → Text → Result SummaryError ℕ
parse_int column [] = err (not_a_number column)
parse_int column (c ∷ []) = in_range column (digits 0 (c ∷ []))
parse_int column (c ∷ d ∷ s) =
    if eqb c b'+'
    then in_range column (digits 0 (d ∷ s))
    else if eqb c b'-'
    then negated column (digits 0 (d ∷ s))
    else in_range column (digits 0 (c ∷ d ∷ s))

unfoldable pub parse_catalog_int64 : Text → Text → Result SummaryError ℕ
parse_catalog_int64 column_name value = parse_int column_name (trim_space value)

abbrev pub parse_value : Text → Result SummaryError Text → Result SummaryError ℕ
parse_value column (err e) = err e
parse_value column (ok t) = parse_catalog_int64 column t

-- The four columns of a page.
pub record Columns : Type 0 where
  pub ids : List Text
  pub sizes : List Text
  pub values : List Text
  pub units : List Text

-- The three assignments at the end of the loop's body.
unfoldable pub count_object : ℕ → ℕ → Counted → Counted
count_object id size c = record {
  summary = record {
    data_object_count = (c.summary.data_object_count + 1) % word;
    total_size = (c.summary.total_size + size) % word;
  };
  seen_data_ids = id ∷ c.seen_data_ids;
}

abbrev pub with_size : ℕ → Counted → Result SummaryError ℕ → Result SummaryError Counted
with_size id c (err e) = err e
with_size id c (ok size) = ok (count_object id size c)

module _ (columns : Columns) (row : ℕ) where
  abbrev pub with_id : Counted → Result SummaryError ℕ → Result SummaryError Counted
  with_id c (err e) = err e
  with_id c (ok id) =
      if any (eqb id) c.seen_data_ids
      then ok c
      else with_size id c (
          parse_value (codes "DATA_SIZE")
            (sql_result_row_value columns.sizes row (codes "DATA_SIZE")))

  abbrev pub with_avu :
      Counted → Result SummaryError Text → Result SummaryError Text → Result SummaryError Counted
  with_avu c (err e) units = err e
  with_avu c (ok value) (err e) = err e
  with_avu c (ok value) (ok units) =
      if is_valid_drs_id_avu_value value units
      then with_id c
          (parse_value (codes "DATA_ID") (sql_result_row_value columns.ids row (codes "DATA_ID")))
      else ok c

  -- The loop's body.
  unfoldable pub append_row : Counted → Result SummaryError Counted
  append_row c =
      with_avu c (sql_result_row_value columns.values row (codes "META_DATA_ATTR_VALUE"))
        (sql_result_row_value columns.units row (codes "META_DATA_ATTR_UNITS"))

-- The loop, with the number of rows that are left.
unfoldable pub append_rows : Columns → ℕ → ℕ → Counted → Result SummaryError Counted
append_rows columns zero row c = ok c
append_rows columns (suc left) row c = elim (append_row columns row c) [
  | err e ↦ err e
  | ok c' ↦ append_rows columns left (suc row) c'
]

abbrev pub with_columns :
    ℕ
    → Counted
    → Option (List Text)
    → Option (List Text)
    → Option (List Text)
    → Option (List Text)
    → Result SummaryError Counted
with_columns rows c (some ids) (some sizes) (some values) (some units) =
    append_rows (record { ids = ids; sizes = sizes; values = values; units = units }) rows 0 c
with_columns rows c none sizes values units = err (missing_column (codes "DATA_ID"))
with_columns rows c (some ids) none values units = err (missing_column (codes "DATA_SIZE"))
with_columns rows c (some ids) (some sizes) none units = err (missing_column (codes "value"))
with_columns rows c (some ids) (some sizes) (some values) none = err (missing_column (codes "unit"))

unfoldable pub append_drs_data_object_summary_rows :
    ColumnNumbers → QueryResponse → Counted → Result SummaryError Counted
append_drs_data_object_summary_rows numbers response c =
    if eqb response.row_count 0
    then ok c
    else with_columns response.row_count c (sql_result_values numbers.data_id response.sql_result)
        (sql_result_values numbers.data_size response.sql_result)
        (sql_result_values numbers.attr_value response.sql_result)
        (sql_result_values numbers.attr_units response.sql_result)
