-- ===== src/Listing/Entries.antt =====
-- The entries that a listing has met, by path, with the AVUs that matched: the loop over one page of
-- a query's result.
use irods_go_drs.Base.{Bool, false, ◌&&◌, ◌||◌, not, Option, none, some, List, [], ◌∷◌, ◌++◌}
use irods_go_drs.Base.{is_nil, any, if◌then◌else◌}
use irods_go_drs.Text.{Text, ◌==◌, trim_space}
use irods_go_drs.Model.{Avu, Entry}
use irods_go_drs.Irods.Stored.{avu_eq}
use irods_go_drs.Metadata.Attributes.{drs_id_avu_attrib, has_drs_unit}
use irods_go_drs.Listing.Scope.{drs_listing_entry_within_scope}

-- `drsListingEntry`, with its key in `entriesByPath`.
pub record ListingEntry : Type 0 where
  pub path : Text
  pub entry : Entry
  pub matched_avus : List Avu

-- `hasAnyDrsIDMatchedAVU`
unfoldable pub has_any_drs_id_matched_avu : List Avu → Bool
unfolding ◌==◌ trim_space has_drs_unit
has_any_drs_id_matched_avu [] = false
has_any_drs_id_matched_avu (avu ∷ avus) =
    avu.name == drs_id_avu_attrib && (not (is_nil (trim_space avu.value)) && has_drs_unit avu)
    || has_any_drs_id_matched_avu avus

-- `hasMatchingDrsIDMatchedAVU`
unfoldable pub has_matching_drs_id_matched_avu : List Avu → Text → Bool
unfolding ◌==◌ trim_space has_drs_unit
has_matching_drs_id_matched_avu [] drs_id = false
has_matching_drs_id_matched_avu (avu ∷ avus) drs_id =
    avu.name == drs_id_avu_attrib && (trim_space avu.value == drs_id && has_drs_unit avu)
    || has_matching_drs_id_matched_avu avus drs_id

-- `appendUniqueAVUStats`
unfoldable pub append_unique_avu_stats : List Avu → List Avu → List Avu
unfolding avu_eq
append_unique_avu_stats existing [] = existing
append_unique_avu_stats existing (avu ∷ additions) =
    append_unique_avu_stats (if any (avu_eq avu) existing then existing else existing ++ (avu ∷ []))
      additions

-- The assignment to `entriesByPath[entry.Path]`: the first entry of a path stays, and the matched
-- AVUs are added to those that were there.
unfoldable pub put_listing_entry : Entry → List Avu → List ListingEntry → List ListingEntry
put_listing_entry entry matched [] =
    record { path = entry.path; entry = entry; matched_avus = append_unique_avu_stats [] matched }
    ∷ []
put_listing_entry entry matched (l ∷ ls) =
    if l.path == entry.path
    then record l { matched_avus = append_unique_avu_stats l.matched_avus matched } ∷ ls
    else l ∷ put_listing_entry entry matched ls

-- The guards of the loop body: blank paths, entries outside the scope and entries whose matched
-- AVUs hold no DRS id are passed over.
unfoldable pub is_listed : Text → Bool → Entry → List Avu → Bool
is_listed collection_path recursive entry matched =
    not (is_nil (trim_space entry.path))
    && (drs_listing_entry_within_scope entry.path collection_path recursive
        && has_any_drs_id_matched_avu matched)

module _ (collection_path : Text) (recursive : Bool) (matched_avus : Text → List Avu) where
  unfoldable pub add_entries : List (Option Entry) → List ListingEntry → List ListingEntry
  add_entries [] listing = listing
  add_entries (none ∷ entries) listing = add_entries entries listing
  add_entries (some entry ∷ entries) listing = add_entries entries (
      if is_listed collection_path recursive entry (matched_avus entry.path)
      then put_listing_entry entry (matched_avus entry.path) listing
      else listing)
