-- ===== src/Tests/Listing.antt =====
-- Listings of a client that answers in two pages, and pages of a short list.
use irods_go_drs.Base.{ℕ, suc, ◌<◌, ◌≡◌, ◌≢◌, refl, ◌∙◌, ap, ◌-◌, true, false, Option, none, some}
use irods_go_drs.Base.{List, [], ◌∷◌, arith, All, drop}
use irods_go_drs.Base.Exec.{Result, ok}
use irods_go_drs.Text.{Text, codes, ◌==◌, trim_space, is_space, has_prefix, lt}
use irods_go_drs.Text.FilePath.{clean, dir}
use mathlib.Core.List.{Perm}
use irods_go_drs.Model.{Entry, Attribute}
use irods_go_drs.Irods.Interface.{ClientError, EntryQuery, EntryQueryResult}
use irods_go_drs.Metadata.Render.{drs_avu}
use irods_go_drs.Metadata.Attributes.{has_drs_unit}
use irods_go_drs.Listing.Scope.{
  objects_scope, normalize_drs_listing_scope, drs_listing_entry_kinds,
  drs_listing_entry_within_scope,
}
use irods_go_drs.Listing.Entries.{
  has_matching_drs_id_matched_avu, ListingEntry, has_any_drs_id_matched_avu,
  append_unique_avu_stats, put_listing_entry, is_listed, add_entries,
}
use irods_go_drs.Listing.Query.{
  after_page, query_kind, query_kinds, query_drs_listing_entries_bounded,
}
use irods_go_drs.Listing.Paging.{pos, int_bound, page_of, returned, panics}
use irods_go_drs.Listing.Window.{
  window_page, page_of-eq-window_page, page_of_overflow, walk, walk-eq-drop,
}
use irods_go_drs.Listing.Found.{IsListing, query_drs_listing_entries_bounded-IsListing}
use irods_go_drs.Listing.Terminates.{EndsBy, query_drs_listing_entries_bounded_total}
use irods_go_drs.Base.Sort.{sort, insert_sorted}
use irods_go_drs.Listing.Sorting.{
  path_before, IsOrdered, sort_drs_objects, sort_drs_objects-IsOrdered,
}
use irods_go_drs.Listing.Collect.{objects_of_entries, list_drs_objects_under_collection_bounded}
use irods_go_drs.Listing.Contained.{InCollection, list_drs_objects-InCollection}
use irods_go_drs.Resolve.{matches_of, find_matches}
use irods_go_drs.Resolve.Matches.{EndsMatched, find_matches-EndsMatched}
use irods_go_drs.Tests.Memory.{data_object}

abbrev item_a : Entry
item_a = data_object (codes "/z/c/a") (codes "a")

abbrev item_b : Entry
item_b = data_object (codes "/z/c/b") (codes "b")

abbrev outside : Entry
outside = data_object (codes "/z/d/b") (codes "b")

-- The answer to a query with this cursor: `a` and an entry elsewhere, then `b` and `a` once more.
abbrev answer_at : Option Text → EntryQueryResult
answer_at none = record {
  entries = some item_a ∷ none ∷ some outside ∷ [];
  matched_avus = λ p. drs_avu Attribute.id p ∷ [];
  has_more = true;
  next = some (codes "2");
}
answer_at (some cursor) = record {
  entries = some item_b ∷ some item_a ∷ [];
  matched_avus = λ p. drs_avu Attribute.id (codes "x") ∷ [];
  has_more = false;
  next = none;
}

abbrev two_pages : EntryQuery → Result ClientError EntryQueryResult
two_pages q = ok (answer_at q.cursor)

-- The pages that a query with this cursor still has to come.
abbrev left_at : Option Text → ℕ
left_at none = 1
left_at (some cursor) = 0

abbrev pages_left : EntryQuery → ℕ
pages_left q = left_at q.cursor

abbrev found : List ListingEntry
found =
    record {
      path = codes "/z/c/a";
      entry = item_a;
      matched_avus = drs_avu Attribute.id (codes "/z/c/a") ∷ drs_avu Attribute.id (codes "x") ∷ [];
    }
    ∷ record {
      path = codes "/z/c/b";
      entry = item_b;
      matched_avus = drs_avu Attribute.id (codes "x") ∷ [];
    }
    ∷ []

found_in_two_pages :
    query_drs_listing_entries_bounded two_pages 2 (codes "/z/c") false objects_scope 0
    ≡ some (ok (found, false))
unfolding query_drs_listing_entries_bounded query_kinds query_kind after_page
    drs_listing_entry_kinds add_entries is_listed put_listing_entry append_unique_avu_stats
    has_any_drs_id_matched_avu drs_listing_entry_within_scope clean dir trim_space is_space ◌==◌
    has_drs_unit has_prefix
found_in_two_pages = refl

query_drs_listing_entries_bounded-IsListing_example : IsListing (codes "/z/c") false found
query_drs_listing_entries_bounded-IsListing_example =
    query_drs_listing_entries_bounded-IsListing (codes "/z/c") false two_pages 0 2 objects_scope
      found false found_in_two_pages

ok_injective :
    (r : Result ClientError EntryQueryResult) (r' r'' : EntryQueryResult)
    → r ≡ ok r'
    → r ≡ ok r''
    → r' ≡ r''
ok_injective r r' r'' e f = ground arith

ends_after : (cursor : Option Text) → (answer_at cursor).has_more ≡ true → 0 < left_at cursor
ends_after none h = omega arith
ends_after (some cursor) h = absurd (ground arith)

two_pages-EndsBy : EndsBy two_pages pages_left
two_pages-EndsBy q result next e more n =
    ends_after q.cursor
      (ap (λ r. r.has_more) (ok_injective (two_pages q) (answer_at q.cursor) result refl e) ∙ more)

query_drs_listing_entries_bounded_total_example :
    query_drs_listing_entries_bounded two_pages 2 (codes "/z/c") false objects_scope 0 ≢ none
query_drs_listing_entries_bounded_total_example =
    query_drs_listing_entries_bounded_total two_pages pages_left two_pages-EndsBy (codes "/z/c")
      false 0 2 objects_scope (λ kind. omega arith)

-- Both pages are asked for: the path of `item_a` is no id `x` on the first.
matches_in_two_pages :
    find_matches two_pages (codes "x") 2 none [] ≡ some (ok (item_b ∷ item_a ∷ []))
unfolding find_matches matches_of has_matching_drs_id_matched_avu trim_space is_space ◌==◌
    has_drs_unit
matches_in_two_pages = refl

find_matches-EndsMatched_example :
    EndsMatched two_pages (codes "x") (find_matches two_pages (codes "x") 2 none [])
find_matches-EndsMatched_example =
    find_matches-EndsMatched two_pages (codes "x") pages_left two_pages-EndsBy 2 (omega arith)

abbrev five : List ℕ
five = 10 ∷ 11 ∷ 12 ∷ 13 ∷ 14 ∷ []

page_of-eq-window_page_example : page_of five (pos 3) (pos 2) ≡ returned (window_page five 3 2)
page_of-eq-window_page_example = page_of-eq-window_page five 3 1 (omega arith)

page_of_overflow_example : page_of five (pos 3) (pos (suc (int_bound - 2))) ≡ panics
page_of_overflow_example = page_of_overflow five 3 (int_bound - 2) (omega arith) (omega arith)

walk-eq-drop_example : walk 6 five 1 1 ≡ drop 1 five
walk-eq-drop_example = walk-eq-drop 6 five 1 1 (omega arith) (omega arith) (omega arith)

listed_in_two_pages :
    list_drs_objects_under_collection_bounded
      (λ p. codes "z")
      two_pages
      2
      (codes "/z/c")
      false
      (codes "objects")
      0
    ≡ some (ok (objects_of_entries (λ p. codes "z") objects_scope found, false))
unfolding list_drs_objects_under_collection_bounded normalize_drs_listing_scope ◌==◌
    objects_of_entries sort insert_sorted path_before lt
listed_in_two_pages = rw found_in_two_pages refl

list_drs_objects-InCollection_example :
    All
      (InCollection (λ p. codes "z") (codes "/z/c") false)
      (objects_of_entries (λ p. codes "z") objects_scope found)
list_drs_objects-InCollection_example =
    list_drs_objects-InCollection (λ p. codes "z") (codes "/z/c") false two_pages 2 0
      (codes "objects") (objects_of_entries (λ p. codes "z") objects_scope found) false
      listed_in_two_pages

sort_drs_objects-IsOrdered_example :
    IsOrdered (sort_drs_objects (objects_of_entries (λ p. codes "z") objects_scope found))
    × Perm
        (sort_drs_objects (objects_of_entries (λ p. codes "z") objects_scope found))
        (objects_of_entries (λ p. codes "z") objects_scope found)
sort_drs_objects-IsOrdered_example =
    sort_drs_objects-IsOrdered (objects_of_entries (λ p. codes "z") objects_scope found)
