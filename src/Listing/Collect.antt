-- ===== src/Listing/Collect.antt =====
-- The objects of a listing: `listDrsObjectsUnderCollectionBounded` behind its query.
use irods_go_drs.Base.{ℕ, Bool, Option, none, some, List, [], ◌∷◌}
use irods_go_drs.Base.{map, if◌then◌else◌}
use irods_go_drs.Base.Exec.{Result, ok, err}
use irods_go_drs.Base.Sort.{sort}
use irods_go_drs.Text.{Text}
use irods_go_drs.Model.{Avu, Entry, InternalDrsObject}
use irods_go_drs.Irods.Interface.{
  ClientError, Error, unsupported_scope, EntryQuery, EntryQueryResult,
}
use irods_go_drs.Metadata.Lookup.{has_matching_drs_id_metadata}
use irods_go_drs.Objects.FromEntry.{internal_drs_object_from_entry}
use irods_go_drs.Listing.Scope.{
  ListingScope, normalize_drs_listing_scope, drs_listing_scope_includes_object,
}
use irods_go_drs.Listing.Entries.{ListingEntry}
use irods_go_drs.Listing.Query.{query_drs_listing_entries_bounded}
use irods_go_drs.Listing.Sorting.{path_before}

module _ (zone_for_path : Text → Text) where
  -- `drsObjectFromListingEntry`; `none` is the nil object of an entry that is no DRS object.
  unfoldable pub drs_object_from_listing_entry : Entry → List Avu → Option InternalDrsObject
  drs_object_from_listing_entry entry avus =
      let metas = map some avus in
      let object = internal_drs_object_from_entry entry (zone_for_path entry.path) metas in
      if has_matching_drs_id_metadata metas object.id then some object else none

  -- The objects of sorted entries that the scope includes.
  unfoldable pub objects_of_entries : ListingScope → List ListingEntry → List InternalDrsObject
  objects_of_entries scope [] = []
  objects_of_entries scope (l ∷ ls) =
      let rest = objects_of_entries scope ls in
      elim (drs_object_from_listing_entry l.entry l.matched_avus) [
        | none ↦ rest
        | some object ↦
            if drs_listing_scope_includes_object scope l.entry object then object ∷ rest else rest
      ]

  collected :
      ListingScope
      → Option (Result Error (List ListingEntry × Bool))
      → Option (Result Error (List InternalDrsObject × Bool))
  collected scope none = none
  collected scope (some (err e)) = some (err e)
  collected scope (some (ok (found, more))) =
      some (ok (objects_of_entries scope (sort path_before found), more))

  -- `listDrsObjectsUnderCollectionBounded`, for a client that answers metadata queries.
  unfoldable pub list_drs_objects_under_collection_bounded :
      (EntryQuery → Result ClientError EntryQueryResult)
      → ℕ
      → Text
      → Bool
      → Text
      → ℕ
      → Option (Result Error (List InternalDrsObject × Bool))
  unfolding collected
  list_drs_objects_under_collection_bounded query fuel path recursive scope max_entries =
      elim (normalize_drs_listing_scope scope) [
        | none ↦ some (err unsupported_scope)
        | some s ↦
            collected s (query_drs_listing_entries_bounded query fuel path recursive s max_entries)
      ]
