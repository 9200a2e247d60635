-- ===== src/Summary/Pages.antt =====
-- `queryDrsDataObjectSummaryWithConnection`: the pages of the catalog, followed along their index. The
-- request is an argument: its page with the index of the next one, no rows, or an error. The loop takes
-- fuel; `none` means that it ran out, which the source has no counterpart for.
use irods_go_drs.Base.{ℕ, zero, suc, Option, none, some, [], eqb, if◌then◌else◌}
use irods_go_drs.Base.Exec.{Result, ok, err}
use irods_go_drs.Text.{Text}
use irods_go_drs.Summary.{
  SummaryError, DrsDataObjectSummary, Counted, QueryResponse, ColumnNumbers,
  append_drs_data_object_summary_rows,
}

pub data CatalogAnswer : Type 0 where
  no_rows_found : CatalogAnswer
  request_failed : Text → CatalogAnswer
  page : QueryResponse → ℕ → CatalogAnswer

pub data QueryError : Type 0 where
  failed_request : Text → QueryError
  in_page : SummaryError → QueryError

abbrev pub Summarised : Type 0
Summarised = Option (Result QueryError DrsDataObjectSummary)

module _ (numbers : ColumnNumbers) (request : ℕ → CatalogAnswer) where
  -- Behind a page: the next one has an index that is not zero.
  abbrev pub after_rows : (ℕ → Counted → Summarised) → ℕ → Result SummaryError Counted → Summarised
  after_rows next index (err e) = some (err (in_page e))
  after_rows next index (ok c) = if eqb index 0 then some (ok c.summary) else next index c

  abbrev pub after_answer : (ℕ → Counted → Summarised) → Counted → CatalogAnswer → Summarised
  after_answer next c no_rows_found = some (ok c.summary)
  after_answer next c (request_failed e) = some (err (failed_request e))
  after_answer next c (page response index) =
      after_rows next index (append_drs_data_object_summary_rows numbers response c)

  unfoldable pub query_pages : ℕ → ℕ → Counted → Summarised
  query_pages zero index c = none
  query_pages (suc fuel) index c = after_answer (query_pages fuel) c (request index)

  unfoldable pub query_drs_data_object_summary_with_connection : ℕ → Summarised
  query_drs_data_object_summary_with_connection fuel =
      query_pages fuel 0
        (record { summary = record { data_object_count = 0; total_size = 0 }; seen_data_ids = [] })
