-- ===== src/Resolve.antt =====
-- Reading one DRS object (drs-support/drs_to_irods_service.go): `drsObjectFromEntry`,
-- `GetDrsObjectByIRODSPath` and `GetDrsObjectByID`. The queries take fuel; `none` means that it ran out,
-- which the source has no counterpart for.
pub mod Matches
use irods_go_drs.Base.{ℕ, zero, suc, ◌&&◌, ◌||◌, not, Option, none, some, List, [], ◌∷◌, ◌++◌}
use irods_go_drs.Base.{is_nil, ltb, length, if◌then◌else◌}
use irods_go_drs.Base.Exec.{Result, ok, err}
use irods_go_drs.Text.{Text, trim_space}
use irods_go_drs.Model.{Avu, Entry, InternalChecksum, InternalDrsObject}
use irods_go_drs.Irods.Interface.{
  Client, ClientError, Error, client, path_required, no_entry, not_drs_object, drs_id_required,
  id_not_found, id_ambiguous, missing_cursor, by_drs_id, EntryQuery, EntryQueryResult,
}
use irods_go_drs.Irods.Actions.{wrap, stat_entry, irods_zone_for_path}
use irods_go_drs.Irods.Replicas.{entry_with_all_replicas}
use irods_go_drs.Metadata.Lookup.{has_matching_drs_id_metadata}
use irods_go_drs.Objects.FromEntry.{internal_drs_object_from_entry}
use irods_go_drs.Registry.Create.{is_root_or_empty}
use irods_go_drs.Listing.Entries.{has_matching_drs_id_matched_avu}
use irods_go_drs.Compound.Build.{Built}
use irods_go_drs.Compound.Runtime.{Digest, build_compound_runtime_manifest_checksum}

-- The entries of one page that carry the id.
unfoldable pub matches_of : Text → (Text → List Avu) → List (Option Entry) → List Entry
matches_of drs_id matched_avus [] = []
matches_of drs_id matched_avus (none ∷ entries) = matches_of drs_id matched_avus entries
matches_of drs_id matched_avus (some entry ∷ entries) =
    let rest = matches_of drs_id matched_avus entries in
    if not (is_nil entry.path) && has_matching_drs_id_matched_avu (matched_avus entry.path) drs_id
    then entry ∷ rest
    else rest

-- The tests behind one page: the search stops with the matches so far, or follows the cursor.
abbrev pub after_matches :
    EntryQueryResult
    → List Entry
    → (Option Text → List Entry → Built (List Entry))
    → Built (List Entry)
after_matches result matches follow =
    if ltb 1 (length matches) || not result.has_more then some (ok matches) else elim result.next [
      | none ↦ some (err missing_cursor)
      | some next ↦ follow (some next) matches
    ]

module _ (query : EntryQuery → Result ClientError EntryQueryResult) (drs_id : Text) where
  abbrev pub after_query :
      Result ClientError EntryQueryResult
      → List Entry
      → (Option Text → List Entry → Built (List Entry))
      → Built (List Entry)
  after_query (err e) matches follow = some (err (client e))
  after_query (ok result) matches follow =
      after_matches result (matches ++ matches_of drs_id result.matched_avus result.entries) follow

  -- The loop over the cursor.
  unfoldable pub find_matches : ℕ → Option Text → List Entry → Built (List Entry)
  find_matches zero cursor matches = none
  find_matches (suc fuel) cursor matches =
      after_query (query (record { place = by_drs_id drs_id; limit = 100; cursor = cursor }))
        matches (find_matches fuel)

module _ (C : Client) (digest : Digest) (fuel : ℕ) (s : C.State) where
  abbrev pub Found : Type 0
  Found = Built (Option InternalDrsObject)

  abbrev pub set_checksum : InternalDrsObject → Built InternalChecksum → Found
  set_checksum object none = none
  set_checksum object (some (err e)) = some (err e)
  set_checksum object (some (ok c)) = some (ok (some (record object { checksum = some c })))

  -- An object whose AVUs carry its id; a compound collection has the checksum of its manifest.
  unfoldable pub identified : Entry → List (Option Avu) → InternalDrsObject → Found
  identified entry metas object =
      if not (has_matching_drs_id_metadata metas object.id)
      then some (ok none)
      else if object.is_manifest && entry.is_dir
      then set_checksum object
          (build_compound_runtime_manifest_checksum C s digest fuel object.absolute_path)
      else some (ok (some object))

  abbrev pub from_full_entry : List (Option Avu) → Result Error Entry → Found
  from_full_entry metas (err e) = some (err e)
  from_full_entry metas (ok entry) =
      identified entry metas
        (internal_drs_object_from_entry entry (irods_zone_for_path C entry.path s) metas)

  unfoldable pub drs_object_from_entry_with_metadata : Option Entry → List (Option Avu) → Found
  drs_object_from_entry_with_metadata none metas = some (err no_entry)
  drs_object_from_entry_with_metadata (some entry) metas =
      from_full_entry metas (entry_with_all_replicas C entry s)

  abbrev pub from_metadata : Entry → Result Error (List (Option Avu)) → Found
  from_metadata entry (err e) = some (err e)
  from_metadata entry (ok metas) = drs_object_from_entry_with_metadata (some entry) metas

  unfoldable pub drs_object_from_entry : Option Entry → Found
  drs_object_from_entry none = some (err no_entry)
  drs_object_from_entry (some entry) = from_metadata entry (wrap (C.list_metadata entry.path s))

  abbrev pub from_stat : Result Error (Option Entry) → Found
  from_stat (err e) = some (err e)
  from_stat (ok entry) = drs_object_from_entry entry

  -- Where no object is found, the entry is none.
  abbrev pub required : Text → Found → Built InternalDrsObject
  required path none = none
  required path (some (err e)) = some (err e)
  required path (some (ok none)) = some (err (not_drs_object path))
  required path (some (ok (some object))) = some (ok object)

  unfoldable pub get_drs_object_by_irods_path : Text → Built InternalDrsObject
  get_drs_object_by_irods_path absolute_path =
      let path = C.correct_path (trim_space absolute_path) in
      if is_root_or_empty path
      then some (err path_required)
      else required path (from_stat (wrap (stat_entry C path s)))

  -- What follows the search: just one entry may carry the id.
  abbrev pub of_matches : Text → Built (List Entry) → Found
  of_matches drs_id none = none
  of_matches drs_id (some (err e)) = some (err e)
  of_matches drs_id (some (ok [])) = some (err (id_not_found drs_id))
  of_matches drs_id (some (ok (entry ∷ []))) = from_stat (wrap (stat_entry C entry.path s))
  of_matches drs_id (some (ok (entry ∷ other ∷ others))) = some (err (id_ambiguous drs_id))

  -- The object may be nil, without an error.
  unfoldable pub get_drs_object_by_id :
      (EntryQuery → Result ClientError EntryQueryResult) → Text → Found
  get_drs_object_by_id query id =
      let drs_id = trim_space id in
      if is_nil drs_id
      then some (err drs_id_required)
      else of_matches drs_id (find_matches query drs_id fuel none [])
