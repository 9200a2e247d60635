-- ===== src/Listing/Scope.antt =====
-- `NormalizeDrsListingScope`, the kinds of entries that a scope asks for, and the tests that keep an
-- entry or an object in a listing.
use irods_go_drs.Base.{ℕ, Bool, true, false, ◌||◌, not, Option, none, some, List, [], ◌∷◌, ◌++◌}
use irods_go_drs.Base.{is_nil, leb, ltb, if◌then◌else◌}
use irods_go_drs.Text.{Text, codes, ◌==◌, trim_space, has_prefix, trim_right_slashes}
use irods_go_drs.Text.FilePath.{clean, dir}
use irods_go_drs.Model.{Entry, InternalDrsObject}
use irods_go_drs.Irods.Interface.{EntryKind, collection_kind, data_object_kind}

pub data ListingScope : Type 0 where
  all_scope objects_scope compound_scope : ListingScope

-- `none` is the error of an unsupported scope.
unfoldable pub normalize_drs_listing_scope : Text → Option ListingScope
unfolding ◌==◌
normalize_drs_listing_scope scope =
    if is_nil scope || scope == codes "all"
    then some all_scope
    else if scope == codes "objects"
    then some objects_scope
    else if scope == codes "compound"
    then some compound_scope
    else none

unfoldable pub drs_listing_entry_kinds : ListingScope → List EntryKind
drs_listing_entry_kinds objects_scope = data_object_kind ∷ []
drs_listing_entry_kinds compound_scope = collection_kind ∷ []
drs_listing_entry_kinds all_scope = collection_kind ∷ data_object_kind ∷ []

-- `drsListingEntryQueryLimit` caps the limit of one query.
abbrev pub drs_listing_entry_query_limit : ℕ
drs_listing_entry_query_limit = 500

unfoldable pub drs_listing_query_limit : ℕ → ℕ
drs_listing_query_limit max_entries =
    if leb max_entries 0 || ltb drs_listing_entry_query_limit max_entries
    then drs_listing_entry_query_limit
    else max_entries

abbrev is_blank_path : Text → Bool
is_blank_path p = is_nil p || p == codes "."

unfoldable pub drs_listing_entry_within_scope : Text → Text → Bool → Bool
drs_listing_entry_within_scope entry_path collection_path recursive =
    let e = clean (trim_space entry_path) in
    let c = clean (trim_space collection_path) in
    if is_blank_path e || is_blank_path c
    then false
    else if recursive
    then has_prefix e (trim_right_slashes c ++ codes "/")
    else dir e == c

unfoldable pub drs_listing_scope_includes_object : ListingScope → Entry → InternalDrsObject → Bool
drs_listing_scope_includes_object objects_scope entry object = not entry.is_dir
drs_listing_scope_includes_object compound_scope entry object =
    if entry.is_dir then object.is_manifest else false
drs_listing_scope_includes_object all_scope entry object =
    if entry.is_dir then object.is_manifest else true
