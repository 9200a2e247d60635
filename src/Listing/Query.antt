-- ===== src/Listing/Query.antt =====
-- `queryDrsListingEntriesBounded`: the metadata query for each kind of entry, followed along its
-- cursor. The loop over the cursor takes fuel; `none` means that it ran out, which the source has no
-- counterpart for.
use irods_go_drs.Base.{
  ℕ, zero, suc, Bool, true, false, ◌&&◌, not, Option, none, some, List, [], ◌∷◌,
}
use irods_go_drs.Base.{◌++◌, ltb, leb, length, if◌then◌else◌}
use irods_go_drs.Base.Exec.{Result, ok, err}
use irods_go_drs.Text.{Text, codes}
use irods_go_drs.Irods.Interface.{
  ClientError, Error, client, missing_cursor, EntryKind, collection_kind, data_object_kind,
  QueryPlace, children_of, path_like, EntryQuery, EntryQueryResult,
}
use irods_go_drs.Listing.Scope.{ListingScope, drs_listing_entry_kinds, drs_listing_query_limit}
use irods_go_drs.Listing.Entries.{ListingEntry, add_entries}

-- The query's place: collections lie below `path/`, and data objects below `path` or anything that
-- its name begins with, of which the scope test keeps the right ones.
unfoldable pub query_place : EntryKind → Text → Bool → QueryPlace
query_place kind path false = children_of kind path
query_place collection_kind path true = path_like collection_kind (path ++ codes "/%")
query_place data_object_kind path true = path_like data_object_kind (path ++ codes "%/%")

-- What a page leaves to do: stop with `hasMore` set or not, or follow the cursor.
pub data AfterPage : Type 0 where
  stop : Bool → AfterPage
  follow : Text → AfterPage
  no_cursor : AfterPage

-- The tests behind the loop over one page, in the source's order.
unfoldable pub after_page : ℕ → List ListingEntry → EntryQueryResult → AfterPage
after_page max_entries listing result =
    if ltb 0 max_entries && ltb max_entries (length listing)
    then stop true
    else if not result.has_more
    then stop false
    else elim result.next [
      | none ↦ no_cursor
      | some next ↦
          if ltb 0 max_entries && leb max_entries (length listing) then stop true else follow next
    ]

module _ (query : EntryQuery → Result ClientError EntryQueryResult) where
  module _ (collection_path : Text) (recursive : Bool) (max_entries : ℕ) where
    -- The listing with the entries of one page added.
    abbrev pub with_page : EntryQueryResult → List ListingEntry → List ListingEntry
    with_page result listing =
        add_entries collection_path recursive result.matched_avus result.entries listing

    abbrev pub listing_query : EntryKind → Option Text → EntryQuery
    listing_query kind cursor = record {
      place = query_place kind collection_path recursive;
      limit = drs_listing_query_limit max_entries;
      cursor = cursor;
    }

    -- The loop over the cursor for one kind; the result is the listing and `hasMore`.
    unfoldable pub query_kind :
        ℕ
        → EntryKind
        → Option Text
        → List ListingEntry
        → Bool
        → Option (Result Error (List ListingEntry × Bool))
    query_kind zero kind cursor listing has_more = none
    query_kind (suc fuel) kind cursor listing has_more = elim (query (listing_query kind cursor)) [
      | err e ↦ some (err (client e))
      | ok result ↦ elim (after_page max_entries (with_page result listing) result) [
        | stop true ↦ some (ok (with_page result listing, true))
        | stop false ↦ some (ok (with_page result listing, has_more))
        | no_cursor ↦ some (err missing_cursor)
        | follow next ↦ query_kind fuel kind (some next) (with_page result listing) has_more
      ]
    ]

    -- The loop over the kinds.
    unfoldable pub query_kinds :
        ℕ
        → List EntryKind
        → List ListingEntry
        → Bool
        → Option (Result Error (List ListingEntry × Bool))
    query_kinds fuel [] listing has_more = some (ok (listing, has_more))
    query_kinds fuel (kind ∷ kinds) listing has_more =
        elim (query_kind fuel kind none listing has_more) [
          | none ↦ none
          | some (err e) ↦ some (err e)
          | some (ok (found, more)) ↦ query_kinds fuel kinds found more
        ]

  unfoldable pub query_drs_listing_entries_bounded :
      ℕ → Text → Bool → ListingScope → ℕ → Option (Result Error (List ListingEntry × Bool))
  query_drs_listing_entries_bounded fuel collection_path recursive scope max_entries =
      query_kinds collection_path recursive max_entries fuel (drs_listing_entry_kinds scope) []
        false
