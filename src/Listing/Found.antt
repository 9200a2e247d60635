-- ===== src/Listing/Found.antt =====
-- What a listing holds: entries of the scope that carry a DRS id, one for each path.
use irods_go_drs.Base.{ℕ, zero, suc, ◌≡◌, refl, sym, subst, Bool, true, false, ◌||◌}
use irods_go_drs.Base.{
  Option, none, some, List, [], ◌∷◌, ◌++◌, arith, any, if◌then◌else◌, inl, inr, Bool-cases,
}
use irods_go_drs.Base.Exec.{Result, ok, err}
use irods_go_drs.Text.{Text, ◌==◌, ==_iff, ==_comm}
use irods_go_drs.Model.{Avu, Entry}
use irods_go_drs.Irods.Interface.{
  ClientError, Error, client, missing_cursor, EntryKind, EntryQuery, EntryQueryResult,
}
use irods_go_drs.Irods.Stored.{avu_eq, avu_eq_iff}
use irods_go_drs.Listing.Scope.{
  ListingScope, drs_listing_entry_kinds, drs_listing_entry_within_scope,
}
use irods_go_drs.Listing.Entries.{
  ListingEntry, has_any_drs_id_matched_avu, append_unique_avu_stats, put_listing_entry, is_listed,
  add_entries,
}
use irods_go_drs.Listing.Query.{
  AfterPage, stop, follow, no_cursor, after_page, query_kind, query_kinds, listing_query, with_page,
  query_drs_listing_entries_bounded,
}

abbrev tagged : List Avu → Bool
tagged = has_any_drs_id_matched_avu

tagged-append : (xs ys : List Avu) → tagged (xs ++ ys) ≡ (tagged xs || tagged ys)
unfolding has_any_drs_id_matched_avu
tagged-append [] ys = refl
tagged-append (x ∷ xs) ys = ground (arith, tagged-append xs ys)

-- An AVU that is there already adds no tag.
tagged_of_any :
    (x : Avu) (xs : List Avu) → any (avu_eq x) xs ≡ true → tagged (x ∷ []) ≡ true → tagged xs ≡ true
unfolding has_any_drs_id_matched_avu
tagged_of_any x [] h t = absurd (ground arith)
tagged_of_any x (y ∷ ys) h t = ground (arith, avu_eq_iff x y, tagged_of_any x ys)

tagged-append_unique :
    (xs ys : List Avu) → tagged (append_unique_avu_stats xs ys) ≡ (tagged xs || tagged ys)
unfolding append_unique_avu_stats
tagged-append_unique xs [] = unfold has_any_drs_id_matched_avu in ground arith
tagged-append_unique xs (y ∷ ys) = ground (
  arith,
  tagged-append_unique (if any (avu_eq y) xs then xs else xs ++ (y ∷ [])) ys,
  tagged-append xs (y ∷ []),
  tagged-append (y ∷ []) ys,
  tagged_of_any y xs,
)

module _ (collection_path : Text) (recursive : Bool) where
  -- A listed entry lies in the scope, carries a DRS id, and stands under its own path.
  pub record IsFound (l : ListingEntry) : Type 0 where
    pub in_scope : drs_listing_entry_within_scope l.path collection_path recursive ≡ true
    pub is_tagged : has_any_drs_id_matched_avu l.matched_avus ≡ true
    pub keyed : l.path ≡ l.entry.path

  -- Each entry is a found one, and no path is listed twice.
  abbrev pub has_path : Text → List ListingEntry → Bool
  has_path p = any (λ l. l.path == p)

  abbrev pub IsListing : List ListingEntry → Type 0
  IsListing [] = Unit
  IsListing (l ∷ ls) = IsFound l × (has_path l.path ls ≡ false) × IsListing ls

  has_path-put :
      (p : Text) (entry : Entry) (matched : List Avu) (ls : List ListingEntry)
      → has_path p (put_listing_entry entry matched ls) ≡ (has_path p ls || entry.path == p)
  unfolding put_listing_entry
  has_path-put p entry matched [] = ground arith
  has_path-put p entry matched (l ∷ ls) =
      ground (arith, ==_iff l.path entry.path, has_path-put p entry matched ls)

  put_listing_entry-IsListing :
      (entry : Entry) (matched : List Avu) (ls : List ListingEntry)
      → is_listed collection_path recursive entry matched ≡ true
      → IsListing ls
      → IsListing (put_listing_entry entry matched ls)
  unfolding put_listing_entry is_listed
  put_listing_entry-IsListing entry matched [] h v = (
    record {
      in_scope = ground arith;
      is_tagged = ground (arith, tagged-append_unique [] matched);
      keyed = refl;
    },
    refl,
    tt,
  )
  put_listing_entry-IsListing entry matched (l ∷ ls) h (f, fresh, v) =
      elim (Bool-cases (l.path == entry.path)) [
        | inl same ↦ rw same (
          record {
            in_scope = f.in_scope;
            is_tagged = ground (arith, tagged-append_unique l.matched_avus matched, f.is_tagged);
            keyed = f.keyed;
          },
          fresh,
          v,
        )
        | inr other ↦ rw other (
          f,
          ground (arith, has_path-put l.path entry matched ls, ==_comm l.path entry.path),
          put_listing_entry-IsListing entry matched ls h v,
        )
      ]

  add_entries-IsListing :
      (matched : Text → List Avu) (entries : List (Option Entry)) (ls : List ListingEntry)
      → IsListing ls
      → IsListing (add_entries collection_path recursive matched entries ls)
  unfolding add_entries
  add_entries-IsListing matched [] ls v = v
  add_entries-IsListing matched (none ∷ entries) ls v = add_entries-IsListing matched entries ls v
  add_entries-IsListing matched (some entry ∷ entries) ls v =
      elim (Bool-cases (is_listed collection_path recursive entry (matched entry.path))) [
        | inl yes' ↦ rw yes' (
            add_entries-IsListing matched entries _
              (put_listing_entry-IsListing entry (matched entry.path) ls yes' v))
        | inr no' ↦ rw no' (add_entries-IsListing matched entries ls v)
      ]

  module _ (query : EntryQuery → Result ClientError EntryQueryResult) (max_entries : ℕ) where
    -- What a loop that has returned a listing, and not an error, has returned.
    abbrev Good : Option (Result Error (List ListingEntry × Bool)) → Type 0
    Good none = Unit
    Good (some (err e)) = Unit
    Good (some (ok (found, more))) = IsListing found

    become :
        {r : Option (Result Error (List ListingEntry × Bool))}
        (r' : Option (Result Error (List ListingEntry × Bool)))
        → r ≡ r'
        → Good r'
        → Good r
    become r' e g = subst Good (sym e) g

    -- One round, from what the query and the tests behind the page give.
    module _ (fuel : ℕ) (kind : EntryKind) (cursor : Option Text) (ls : List ListingEntry)
        (more : Bool) where
      abbrev round : Option (Result Error (List ListingEntry × Bool))
      round = query_kind query collection_path recursive max_entries (suc fuel) kind cursor ls more

      abbrev asked : Result ClientError EntryQueryResult
      asked = query (listing_query query collection_path recursive max_entries kind cursor)

      abbrev extended : EntryQueryResult → List ListingEntry
      extended result = with_page query collection_path recursive max_entries result ls

      round-Good_of_page :
          (result : EntryQueryResult) (a : AfterPage)
          → asked ≡ ok result
          → after_page max_entries (extended result) result ≡ a
          → IsListing (extended result)
          → ((next : Text)
              → Good (
                  query_kind query collection_path recursive max_entries fuel kind
                    (some next)
                    (extended result)
                    more))
          → Good round
      unfolding query_kind
      round-Good_of_page result (stop true) e f v ih =
          become (some (ok (extended result, true))) (ground arith) v
      round-Good_of_page result (stop false) e f v ih =
          become (some (ok (extended result, more))) (ground arith) v
      round-Good_of_page result (follow next) e f v ih =
          become
            (query_kind query collection_path recursive max_entries fuel kind (some next)
              (extended result) more)
            (ground arith) (ih next)
      round-Good_of_page result no_cursor e f v ih =
          become (some (err missing_cursor)) (ground arith) tt

      round-Good :
          (r : Result ClientError EntryQueryResult)
          → asked ≡ r
          → IsListing ls
          → ((next : Text) (ls' : List ListingEntry)
              → IsListing ls'
              → Good (
                  query_kind query collection_path recursive max_entries fuel kind
                    (some next)
                    ls'
                    more))
          → Good round
      unfolding query_kind
      round-Good (err e') e v ih = become (some (err (client e'))) (ground arith) tt
      round-Good (ok result) e v ih =
          let v' : IsListing (extended result) =
            add_entries-IsListing result.matched_avus result.entries ls v in
          round-Good_of_page result _ e refl v' (λ next. ih next (extended result) v')

    query_kind-Good :
        (fuel : ℕ) (kind : EntryKind) (cursor : Option Text) (ls : List ListingEntry) (more : Bool)
        → IsListing ls
        → Good (query_kind query collection_path recursive max_entries fuel kind cursor ls more)
    query_kind-Good zero kind cursor ls more v = unfold query_kind in tt
    query_kind-Good (suc fuel) kind cursor ls more v =
        round-Good fuel kind cursor ls more _ refl v
          (λ next ls' v'. query_kind-Good fuel kind (some next) ls' more v')

    query_kinds-Good_of :
        (fuel : ℕ) (kind : EntryKind) (kinds : List EntryKind) (ls : List ListingEntry)
        (more : Bool) (r : Option (Result Error (List ListingEntry × Bool)))
        → query_kind query collection_path recursive max_entries fuel kind none ls more ≡ r
        → Good r
        → ((found : List ListingEntry) (m : Bool)
            → IsListing found
            → Good (query_kinds query collection_path recursive max_entries fuel kinds found m))
        → Good (query_kinds query collection_path recursive max_entries fuel (kind ∷ kinds) ls more)
    unfolding query_kinds
    query_kinds-Good_of fuel kind kinds ls more none e g ih = become none (ground arith) tt
    query_kinds-Good_of fuel kind kinds ls more (some (err f)) e g ih =
        become (some (err f)) (ground arith) tt
    query_kinds-Good_of fuel kind kinds ls more (some (ok (found, m))) e g ih =
        become (query_kinds query collection_path recursive max_entries fuel kinds found m)
          (ground arith) (ih found m g)

    query_kinds-Good :
        (fuel : ℕ) (kinds : List EntryKind) (ls : List ListingEntry) (more : Bool)
        → IsListing ls
        → Good (query_kinds query collection_path recursive max_entries fuel kinds ls more)
    query_kinds-Good fuel [] ls more v = unfold query_kinds in v
    query_kinds-Good fuel (kind ∷ kinds) ls more v =
        query_kinds-Good_of fuel kind kinds ls more _ refl
          (query_kind-Good fuel kind none ls more v)
          (λ found m v'. query_kinds-Good fuel kinds found m v')

    -- Whatever the client answers, a listing that is returned holds only entries that lie in the
    -- scope, carry a DRS id and stand under their own path, each path once.
    pub query_drs_listing_entries_bounded-IsListing :
        (fuel : ℕ) (scope : ListingScope) (found : List ListingEntry) (more : Bool)
        → query_drs_listing_entries_bounded query fuel collection_path recursive scope max_entries
          ≡ some (ok (found, more))
        → IsListing found
    unfolding query_drs_listing_entries_bounded
    query_drs_listing_entries_bounded-IsListing fuel scope found more h =
        subst Good h (query_kinds-Good fuel (drs_listing_entry_kinds scope) [] false tt)
