-- ===== src/Listing/Contained.antt =====
-- The objects of a listing lie in the collection that was asked for, and are those of the scope.
use irods_go_drs.Base.{ℕ, ◌≡◌, refl, sym, subst, Bool, true, Option, none, some, List}
use irods_go_drs.Base.{[], ◌∷◌, arith, map, All, inl, inr, Bool-cases}
use irods_go_drs.Base.Exec.{Result, ok, err}
use irods_go_drs.Base.Sort.{sort, sort-All}
use irods_go_drs.Text.{Text}
use irods_go_drs.Model.{InternalDrsObject}
use irods_go_drs.Irods.Interface.{ClientError, Error, EntryQuery, EntryQueryResult}
use irods_go_drs.Objects.Recognised.{internal_drs_object_from_entry-absolute_path}
use irods_go_drs.Listing.Scope.{
  ListingScope, normalize_drs_listing_scope, drs_listing_entry_within_scope,
  drs_listing_scope_includes_object,
}
use irods_go_drs.Listing.Entries.{ListingEntry}
use irods_go_drs.Listing.Query.{query_drs_listing_entries_bounded}
use irods_go_drs.Listing.Sorting.{path_before}
use irods_go_drs.Listing.Found.{IsFound, IsListing, query_drs_listing_entries_bounded-IsListing}
use irods_go_drs.Listing.Collect.{
  drs_object_from_listing_entry, objects_of_entries, list_drs_objects_under_collection_bounded,
}

module _ (zone_for_path : Text → Text) (path : Text) (recursive : Bool) where
  abbrev pub InCollection : InternalDrsObject → Type 0
  InCollection object = drs_listing_entry_within_scope object.absolute_path path recursive ≡ true

  IsListing-All :
      (ls : List ListingEntry) → IsListing path recursive ls → All (IsFound path recursive) ls
  IsListing-All [] v = tt
  IsListing-All (l ∷ ls) v = (v.0, IsListing-All ls v.2)

  drs_object_from_listing_entry-InCollection :
      (l : ListingEntry) (object : InternalDrsObject)
      → IsFound path recursive l
      → drs_object_from_listing_entry zone_for_path l.entry l.matched_avus ≡ some object
      → InCollection object
  unfolding drs_object_from_listing_entry
  drs_object_from_listing_entry-InCollection l object f h = ground (
    arith,
    f.in_scope,
    f.keyed,
    internal_drs_object_from_entry-absolute_path l.entry (zone_for_path l.entry.path)
        (map some l.matched_avus),
  )

  become :
      {objects : List InternalDrsObject} (objects' : List InternalDrsObject)
      → objects ≡ objects'
      → All InCollection objects'
      → All InCollection objects
  become objects' e v = subst (All InCollection) (sym e) v

  module _ (scope : ListingScope) (l : ListingEntry) (ls : List ListingEntry) where
    abbrev others : List InternalDrsObject
    others = objects_of_entries zone_for_path scope ls

    objects_of_entries-cons :
        (o : Option InternalDrsObject)
        → drs_object_from_listing_entry zone_for_path l.entry l.matched_avus ≡ o
        → IsFound path recursive l
        → All InCollection others
        → All InCollection (objects_of_entries zone_for_path scope (l ∷ ls))
    unfolding objects_of_entries
    objects_of_entries-cons none e f v = become others (ground arith) v
    objects_of_entries-cons (some object) e f v =
        elim (Bool-cases (drs_listing_scope_includes_object scope l.entry object)) [
          | inl kept ↦
              become (object ∷ others) (ground arith)
                (drs_object_from_listing_entry-InCollection l object f e, v)
          | inr dropped ↦ become others (ground arith) v
        ]

  objects_of_entries-InCollection :
      (scope : ListingScope) (ls : List ListingEntry)
      → All (IsFound path recursive) ls
      → All InCollection (objects_of_entries zone_for_path scope ls)
  objects_of_entries-InCollection scope [] v = unfold objects_of_entries in tt
  objects_of_entries-InCollection scope (l ∷ ls) v =
      objects_of_entries-cons scope l ls _ refl v.0 (objects_of_entries-InCollection scope ls v.1)

  module _ (query : EntryQuery → Result ClientError EntryQueryResult) (fuel max_entries : ℕ) where
    abbrev listed_entries : ListingScope → Option (Result Error (List ListingEntry × Bool))
    listed_entries s = query_drs_listing_entries_bounded query fuel path recursive s max_entries

    list_of_entries :
        (scope : Text) (s : ListingScope) (r : Option (Result Error (List ListingEntry × Bool)))
        (objects : List InternalDrsObject) (more : Bool)
        → normalize_drs_listing_scope scope ≡ some s
        → listed_entries s ≡ r
        → list_drs_objects_under_collection_bounded zone_for_path query fuel path recursive scope
            max_entries
          ≡ some (ok (objects, more))
        → All InCollection objects
    unfolding list_drs_objects_under_collection_bounded
    list_of_entries scope s none objects more n e h = absurd (ground arith)
    list_of_entries scope s (some (err f)) objects more n e h = absurd (ground arith)
    list_of_entries scope s (some (ok (found, m))) objects more n e h =
        become (objects_of_entries zone_for_path s (sort path_before found)) (ground arith) (
          objects_of_entries-InCollection s (sort path_before found) (
            sort-All path_before (IsFound path recursive) found (
              IsListing-All found (
                query_drs_listing_entries_bounded-IsListing path recursive query max_entries fuel s
                  found m e))))

    -- Whatever the client answers, each object of a listing that is returned lies in the collection
    -- that was asked for: directly in it, or at any depth below it where the listing is recursive.
    pub list_drs_objects-InCollection :
        (scope : Text) (objects : List InternalDrsObject) (more : Bool)
        → list_drs_objects_under_collection_bounded zone_for_path query fuel path recursive scope
            max_entries
          ≡ some (ok (objects, more))
        → All InCollection objects
    list_drs_objects-InCollection scope objects more h = go (normalize_drs_listing_scope scope) refl
      where
        go :
            (o : Option ListingScope)
            → normalize_drs_listing_scope scope ≡ o
            → All InCollection objects
        go none n =
            absurd (unfold list_drs_objects_under_collection_bounded in ground (arith, n, h))
        go (some s) n = list_of_entries scope s _ objects more n refl h
