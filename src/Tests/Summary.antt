-- ===== src/Tests/Summary.antt =====
-- A page of three rows, two of them for one data object.
use irods_go_drs.Base.{ℕ, zero, suc, ◌≡◌, refl, some, [], ◌∷◌}
use irods_go_drs.Base.Exec.{ok}
use irods_go_drs.Text.{codes, trim_space, is_space, equal_fold}
use irods_go_drs.Summary.{
  Counted, QueryResponse, ColumnNumbers, Columns, append_rows, append_drs_data_object_summary_rows,
  sql_result_row_value, nth, is_valid_drs_id_avu_value, parse_catalog_int64, parse_int, digits,
  sql_result_values, append_row, count_object,
}
use irods_go_drs.Summary.Pages.{
  CatalogAnswer, no_rows_found, request_failed, page, query_pages,
  query_drs_data_object_summary_with_connection,
}
use irods_go_drs.Summary.Totals.{OnSuccess}
use irods_go_drs.Summary.Adds.{Adds, append_rows-Adds}

abbrev columns : Columns
columns = record {
  ids = codes "7" ∷ codes "8" ∷ codes "7" ∷ [];
  sizes = codes "100" ∷ codes "20" ∷ codes "100" ∷ [];
  values = codes "a" ∷ codes "b" ∷ codes "c" ∷ [];
  units = [] ∷ codes "iRODS:DRS" ∷ [] ∷ [];
}

abbrev numbers : ColumnNumbers
numbers = record { data_id = 401; data_size = 407; attr_value = 601; attr_units = 602 }

abbrev response : QueryResponse
response = record {
  row_count = 3;
  sql_result =
      (401, columns.ids) ∷ (407, columns.sizes) ∷ (601, columns.values) ∷ (602, columns.units) ∷ [];
}

abbrev nothing : Counted
nothing = record { summary = record { data_object_count = 0; total_size = 0 }; seen_data_ids = [] }

summary_example :
    append_drs_data_object_summary_rows numbers response nothing
    ≡ ok (record {
      summary = record { data_object_count = 2; total_size = 120 };
      seen_data_ids = 8 ∷ 7 ∷ [];
    })
unfolding append_drs_data_object_summary_rows sql_result_values append_rows append_row
    sql_result_row_value nth is_valid_drs_id_avu_value parse_catalog_int64 parse_int digits
    count_object trim_space is_space equal_fold
summary_example = refl

-- A catalog of two pages, the second with the index 5.
abbrev catalog : ℕ → CatalogAnswer
catalog zero = page response 5
catalog (suc n) = page response 0

abbrev left : ℕ → ℕ
left zero = 1
left (suc n) = 0

abbrev next_of : CatalogAnswer → ℕ
next_of (page r next) = next
next_of no_rows_found = 0
next_of (request_failed e) = 0

two_pages_example :
    query_drs_data_object_summary_with_connection numbers catalog 2
    ≡ some (ok (record { data_object_count = 2; total_size = 120 }))
unfolding query_drs_data_object_summary_with_connection query_pages
    append_drs_data_object_summary_rows sql_result_values append_rows append_row
    sql_result_row_value nth is_valid_drs_id_avu_value parse_catalog_int64 parse_int digits
    count_object trim_space is_space equal_fold
two_pages_example = refl

append_rows-Adds_example :
    OnSuccess
      (Adds numbers response [])
      (append_drs_data_object_summary_rows numbers response nothing)
append_rows-Adds_example = append_rows-Adds numbers response [] nothing (refl, tt, refl, refl)
