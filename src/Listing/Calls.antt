-- ===== src/Listing/Calls.antt =====
-- The calls for a listing: `ListDrsObjectsUnderCollection`, its two pages and `ListDrsObjects`. The client
-- has to answer metadata queries. They take fuel for the query; `none` means that it ran out.
use irods_go_drs.Base.{
  ℕ, zero, suc, ◌+◌, Bool, true, Option, none, some, List, is_nil, if◌then◌else◌,
}
use irods_go_drs.Base.Exec.{Result, ok, err}
use irods_go_drs.Text.{Text, trim_space}
use irods_go_drs.Model.{InternalDrsObject}
use irods_go_drs.Irods.Interface.{
  Client, ClientError, Error, path_required, unsupported_scope, offset_negative, limit_not_positive,
  EntryQuery, EntryQueryResult,
}
use irods_go_drs.Irods.Actions.{irods_zone_for_path, root_collection_path}
use irods_go_drs.Listing.Scope.{normalize_drs_listing_scope}
use irods_go_drs.Listing.Collect.{list_drs_objects_under_collection_bounded}
use irods_go_drs.Listing.Sorting.{sort_drs_objects}
use irods_go_drs.Listing.Paging.{
  ℤ, pos, negsuc, wrap_int, Outcome, fails, DrsObjectPage, page_of, page_of_fast,
}

abbrev pub Objects : Type 0
Objects = Option (Result Error (List InternalDrsObject))

abbrev pub Page : Type 0
Page = Option (Outcome (DrsObjectPage InternalDrsObject))

-- The guards in front of a page's listing.
unfoldable pub guarded : ℤ → ℤ → Page → Page
guarded (negsuc n) limit page = some (fails offset_negative)
guarded (pos offset) (negsuc n) page = some (fails limit_not_positive)
guarded (pos offset) (pos zero) page = some (fails limit_not_positive)
guarded (pos offset) (pos (suc l)) page = page

-- The limit of the query for a fast page, which wraps around; one below zero bounds nothing, as zero.
abbrev pub fetch_limit : ℤ → ℤ → ℤ
fetch_limit (pos offset) (pos limit) = wrap_int (offset + limit + 1)
fetch_limit offset limit = pos 0

abbrev pub bound_of : ℤ → ℕ
bound_of (pos n) = n
bound_of (negsuc n) = 0

module _ (C : Client) (query : EntryQuery → Result ClientError EntryQueryResult) (fuel : ℕ)
    (s : C.State) where
  abbrev pub Bounded : Type 0
  Bounded = Option (Result Error (List InternalDrsObject × Bool))

  abbrev pub bounded : Text → Bool → Text → ℕ → Bounded
  bounded path recursive scope max_entries =
      list_drs_objects_under_collection_bounded (λ p. irods_zone_for_path C p s) query fuel path
        recursive scope max_entries

  abbrev pub sorted : Bounded → Objects
  sorted none = none
  sorted (some (err e)) = some (err e)
  sorted (some (ok (objects, more))) = some (ok (sort_drs_objects objects))

  unfoldable pub list_drs_objects_under_collection : Text → Bool → Text → Objects
  list_drs_objects_under_collection collection_path recursive scope =
      let path = C.correct_path (trim_space collection_path) in
      if is_nil path then some (err path_required) else elim (normalize_drs_listing_scope scope) [
        | none ↦ some (err unsupported_scope)
        | some known ↦ sorted (bounded path recursive scope 0)
      ]

  abbrev pub paged : ℤ → ℤ → Objects → Page
  paged offset limit none = none
  paged offset limit (some (err e)) = some (fails e)
  paged offset limit (some (ok objects)) = some (page_of objects offset limit)

  unfoldable pub list_drs_objects_under_collection_page : Text → Bool → Text → ℤ → ℤ → Page
  list_drs_objects_under_collection_page collection_path recursive scope offset limit =
      guarded offset limit
        (paged offset limit (list_drs_objects_under_collection collection_path recursive scope))

  abbrev pub paged_fast : ℤ → ℤ → Bounded → Page
  paged_fast offset limit none = none
  paged_fast offset limit (some (err e)) = some (fails e)
  paged_fast offset limit (some (ok (objects, more))) =
      some (page_of_fast (sort_drs_objects objects) more offset limit)

  unfoldable pub list_drs_objects_under_collection_page_fast : Text → Bool → Text → ℤ → ℤ → Page
  list_drs_objects_under_collection_page_fast collection_path recursive scope offset limit =
      let path = C.correct_path (trim_space collection_path) in
      guarded offset limit (
        if is_nil path
        then some (fails path_required)
        else paged_fast offset limit
            (bounded path recursive scope (bound_of (fetch_limit offset limit))))

  -- Under the root of the connected zone.
  unfoldable pub list_drs_objects : Text → ℤ → ℤ → Page
  list_drs_objects scope offset limit =
      guarded offset limit
        (paged offset limit (sorted (bounded (root_collection_path C s) true scope 0)))
