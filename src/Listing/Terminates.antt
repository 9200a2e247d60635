-- ===== src/Listing/Terminates.antt =====
-- The loop over the cursor ends where the client's cursors do.
use irods_go_drs.Base.{ℕ, zero, suc, ◌<◌, ◌≡◌, ◌≢◌, refl, Bool, true, false}
use irods_go_drs.Base.{Option, none, some, List, [], ◌∷◌, arith}
use irods_go_drs.Base.Exec.{Result, ok, err}
use irods_go_drs.Text.{Text}
use irods_go_drs.Irods.Interface.{ClientError, Error, EntryKind, EntryQuery, EntryQueryResult}
use irods_go_drs.Listing.Scope.{ListingScope, drs_listing_entry_kinds}
use irods_go_drs.Listing.Entries.{ListingEntry}
use irods_go_drs.Listing.Query.{
  AfterPage, stop, follow, no_cursor, after_page, query_kind, query_kinds, listing_query, with_page,
  query_drs_listing_entries_bounded,
}

-- A cursor is followed only where the page has more and gives that cursor.
after_page-eq-follow :
    (max_entries : ℕ) (ls : List ListingEntry) (result : EntryQueryResult) (next : Text)
    → after_page max_entries ls result ≡ follow next
    → (result.has_more ≡ true) × (result.next ≡ some next)
unfolding after_page
after_page-eq-follow max_entries ls result next h = ground arith

module _ (query : EntryQuery → Result ClientError EntryQueryResult) where
  -- A measure of the pages that a query still has to come: following a cursor makes it smaller.
  abbrev pub EndsBy : (EntryQuery → ℕ) → Type 0
  EndsBy left =
      (q : EntryQuery) (result : EntryQueryResult) (next : Text)
      → query q ≡ ok result
      → result.has_more ≡ true
      → result.next ≡ some next
      → left (record q { cursor = some next }) < left q

  module _ (left : EntryQuery → ℕ) (ends : EndsBy left) (collection_path : Text) (recursive : Bool)
      (max_entries : ℕ) where
    abbrev query_at : EntryKind → Option Text → EntryQuery
    query_at = listing_query query collection_path recursive max_entries

    abbrev page : EntryQueryResult → List ListingEntry → List ListingEntry
    page = with_page query collection_path recursive max_entries

    abbrev loop :
        ℕ
        → EntryKind
        → Option Text
        → List ListingEntry
        → Bool
        → Option (Result Error (List ListingEntry × Bool))
    loop = query_kind query collection_path recursive max_entries

    loop_of_page :
        (fuel : ℕ) (kind : EntryKind) (cursor : Option Text) (ls : List ListingEntry) (more : Bool)
        (result : EntryQueryResult) (a : AfterPage)
        → query (query_at kind cursor) ≡ ok result
        → after_page max_entries (page result ls) result ≡ a
        → ((next : Text)
            → a ≡ follow next
            → loop fuel kind (some next) (page result ls) more ≢ none)
        → loop (suc fuel) kind cursor ls more ≢ none
    unfolding query_kind
    loop_of_page fuel kind cursor ls more result (stop true) e f ih = ground arith
    loop_of_page fuel kind cursor ls more result (stop false) e f ih = ground arith
    loop_of_page fuel kind cursor ls more result (follow next) e f ih = ground (arith, ih next refl)
    loop_of_page fuel kind cursor ls more result no_cursor e f ih = ground arith

    loop_of_answer :
        (fuel : ℕ) (kind : EntryKind) (cursor : Option Text) (ls : List ListingEntry) (more : Bool)
        (r : Result ClientError EntryQueryResult)
        → query (query_at kind cursor) ≡ r
        → left (query_at kind cursor) < suc fuel
        → ((next : Text) (ls' : List ListingEntry)
            → left (query_at kind (some next)) < fuel
            → loop fuel kind (some next) ls' more ≢ none)
        → loop (suc fuel) kind cursor ls more ≢ none
    loop_of_answer fuel kind cursor ls more (err e') e k ih = unfold query_kind in ground arith
    loop_of_answer fuel kind cursor ls more (ok result) e k ih =
        loop_of_page fuel kind cursor ls more result _ e refl λ next f.
          let more_follows = after_page-eq-follow max_entries (page result ls) result next f in
          ih next (page result ls)
            (omega (arith, ends (query_at kind cursor) result next e more_follows.0 more_follows.1))

    loop_total :
        (fuel : ℕ) (kind : EntryKind) (cursor : Option Text) (ls : List ListingEntry) (more : Bool)
        → left (query_at kind cursor) < fuel
        → loop fuel kind cursor ls more ≢ none
    loop_total zero kind cursor ls more k = absurd (omega arith)
    loop_total (suc fuel) kind cursor ls more k =
        loop_of_answer fuel kind cursor ls more _ refl k
          (λ next ls' k'. loop_total fuel kind (some next) ls' more k')

    query_kinds_of_loop :
        (fuel : ℕ) (kind : EntryKind) (kinds : List EntryKind) (ls : List ListingEntry)
        (more : Bool) (r : Option (Result Error (List ListingEntry × Bool)))
        → loop fuel kind none ls more ≡ r
        → r ≢ none
        → ((found : List ListingEntry) (m : Bool)
            → query_kinds query collection_path recursive max_entries fuel kinds found m ≢ none)
        → query_kinds query collection_path recursive max_entries fuel (kind ∷ kinds) ls more ≢ none
    unfolding query_kinds
    query_kinds_of_loop fuel kind kinds ls more none e n ih = absurd (n refl)
    query_kinds_of_loop fuel kind kinds ls more (some (err f)) e n ih = ground arith
    query_kinds_of_loop fuel kind kinds ls more (some (ok (found, m))) e n ih =
        ground (arith, ih found m)

    query_kinds_total :
        (fuel : ℕ) (kinds : List EntryKind) (ls : List ListingEntry) (more : Bool)
        → ((kind : EntryKind) → left (query_at kind none) < fuel)
        → query_kinds query collection_path recursive max_entries fuel kinds ls more ≢ none
    query_kinds_total fuel [] ls more k = unfold query_kinds in ground arith
    query_kinds_total fuel (kind ∷ kinds) ls more k =
        query_kinds_of_loop fuel kind kinds ls more _ refl
          (loop_total fuel kind none ls more (k kind))
          (λ found m. query_kinds_total fuel kinds found m k)

    -- If following a cursor brings the end of the pages nearer, as `left` counts, then fuel above
    -- the count of each kind's first query is enough: the listing returns a result or an error.
    pub query_drs_listing_entries_bounded_total :
        (fuel : ℕ) (scope : ListingScope)
        → ((kind : EntryKind) → left (query_at kind none) < fuel)
        → query_drs_listing_entries_bounded query fuel collection_path recursive scope max_entries
          ≢ none
    unfolding query_drs_listing_entries_bounded
    query_drs_listing_entries_bounded_total fuel scope k =
        query_kinds_total fuel (drs_listing_entry_kinds scope) [] false k
