-- ===== src/Resolve/Matches.antt =====
-- The search for the entries that carry an id: what it finds, and where it ends.
use irods_go_drs.Base.{
  ℕ, zero, suc, ◌<◌, ◌≡◌, refl, true, false, ◌&&◌, ◌||◌, not, ◌⊎◌, inl, inr, Bool-cases,
}
use irods_go_drs.Base.{Option, none, some, List, [], ◌∷◌, ◌++◌, All, is_nil, ltb, length, arith}
use irods_go_drs.Base.Exec.{Result, ok, err}
use irods_go_drs.Text.{Text}
use irods_go_drs.Model.{Entry}
use irods_go_drs.Irods.Interface.{ClientError, EntryQuery, EntryQueryResult, by_drs_id}
use irods_go_drs.Listing.Entries.{has_matching_drs_id_matched_avu}
use irods_go_drs.Listing.Terminates.{EndsBy}
use irods_go_drs.Compound.Build.{Built}
use irods_go_drs.Resolve.{matches_of, after_matches, after_query, find_matches}

abbrev pub Lists : List (Option Entry) → Entry → Type 0
Lists [] entry = ⊥
Lists (x ∷ xs) entry = (x ≡ some entry) ⊎ Lists xs entry

All-append : (P : Entry → Type 0) (xs ys : List Entry) → All P xs → All P ys → All P (xs ++ ys)
All-append P [] ys ps qs = qs
All-append P (x ∷ xs) ys ps qs = (ps.0, All-append P xs ys ps.1 qs)

module _ (query : EntryQuery → Result ClientError EntryQueryResult) (drs_id : Text) where
  -- A page of the client lists the entry under a path that is not empty, and its matched AVUs for that
  -- path have the id.
  abbrev pub Carries : Entry → Type 0
  Carries entry =
      (q : EntryQuery) × (result : EntryQueryResult) × (query q ≡ ok result)
      × Lists result.entries entry
      × (is_nil entry.path ≡ false)
      × (has_matching_drs_id_matched_avu (result.matched_avus entry.path) drs_id ≡ true)

  -- The search ended, and all that it found carries the id.
  abbrev pub EndsMatched : Built (List Entry) → Type 0
  EndsMatched none = ⊥
  EndsMatched (some (err e)) = Unit
  EndsMatched (some (ok entries)) = All Carries entries

  matches_of-Carries :
      (q : EntryQuery) (result : EntryQueryResult)
      → query q ≡ ok result
      → (entries : List (Option Entry))
      → ((entry : Entry) → Lists entries entry → Lists result.entries entry)
      → All Carries (matches_of drs_id result.matched_avus entries)
  unfolding matches_of
  matches_of-Carries q result e [] within = tt
  matches_of-Carries q result e (none ∷ entries) within =
      matches_of-Carries q result e entries (λ x l. within x (inr l))
  matches_of-Carries q result e (some entry ∷ entries) within =
      elim (Bool-cases (
        not (is_nil entry.path)
        && has_matching_drs_id_matched_avu (result.matched_avus entry.path) drs_id)) [
          | inl kept ↦ rw kept (
            (q, result, e, within entry (inl refl), ground (arith, kept), ground (arith, kept)),
            matches_of-Carries q result e entries (λ x l. within x (inr l)),
          )
          | inr left_out ↦
              rw left_out (matches_of-Carries q result e entries (λ x l. within x (inr l)))
        ]

  module _ (follow : Option Text → List Entry → Built (List Entry)) where
    follow-EndsMatched :
        (result : EntryQueryResult) (matches : List Entry) (next : Option Text)
        → result.next ≡ next
        → ltb 1 (length matches) || not result.has_more ≡ false
        → ((cursor : Text)
            → result.has_more ≡ true
            → result.next ≡ some cursor
            → EndsMatched (follow (some cursor) matches))
        → EndsMatched (after_matches result matches follow)
    follow-EndsMatched result matches none e h k = rw h (rw e tt)
    follow-EndsMatched result matches (some cursor) e h k = rw h (rw e (k cursor (ground arith) e))

    after_matches-EndsMatched :
        (result : EntryQueryResult) (matches : List Entry)
        → All Carries matches
        → ((cursor : Text)
            → result.has_more ≡ true
            → result.next ≡ some cursor
            → EndsMatched (follow (some cursor) matches))
        → EndsMatched (after_matches result matches follow)
    after_matches-EndsMatched result matches c k =
        elim (Bool-cases (ltb 1 (length matches) || not result.has_more)) [
          | inl stops ↦ rw stops c
          | inr goes_on ↦ follow-EndsMatched result matches result.next refl goes_on k
        ]

  after_query-EndsMatched :
      (q : EntryQuery) (r : Result ClientError EntryQueryResult) (matches : List Entry)
      (follow : Option Text → List Entry → Built (List Entry))
      → query q ≡ r
      → All Carries matches
      → ((result : EntryQueryResult) (cursor : Text) (more : List Entry)
          → r ≡ ok result
          → result.has_more ≡ true
          → result.next ≡ some cursor
          → All Carries more
          → EndsMatched (follow (some cursor) more))
      → EndsMatched (after_query query drs_id r matches follow)
  after_query-EndsMatched q (err e) matches follow h c k = tt
  after_query-EndsMatched q (ok result) matches follow h c k =
      after_matches-EndsMatched follow result _ found
        (λ cursor m n. k result cursor _ refl m n found)
    where
      found : All Carries (matches ++ matches_of drs_id result.matched_avus result.entries)
      found = All-append _ matches _ c (matches_of-Carries q result h result.entries (λ x l. l))

  module _ (left : EntryQuery → ℕ) (ends : EndsBy query left) where
    abbrev pub query_at : Option Text → EntryQuery
    query_at cursor = record { place = by_drs_id drs_id; limit = 100; cursor = cursor }

    find_from-EndsMatched :
        (fuel : ℕ) (cursor : Option Text) (matches : List Entry)
        → left (query_at cursor) < fuel
        → All Carries matches
        → EndsMatched (find_matches query drs_id fuel cursor matches)
    unfolding find_matches
    find_from-EndsMatched zero cursor matches enough c = absurd (omega arith)
    find_from-EndsMatched (suc fuel) cursor matches enough c =
        after_query-EndsMatched (query_at cursor) (query (query_at cursor)) matches _ refl c
          (λ result next more e m n v.
            find_from-EndsMatched fuel (some next) more
              (omega (arith, ends (query_at cursor) result next e m n, enough)) v)

    -- If following a cursor makes a measure of the query smaller, then fuel above the measure of the first
    -- query is enough for the search by an id: it ends, with an error or with entries each of which a page
    -- of the client listed, with a path that is not empty and a matched AVU of that path with the id.
    pub find_matches-EndsMatched :
        (fuel : ℕ)
        → left (query_at none) < fuel
        → EndsMatched (find_matches query drs_id fuel none [])
    find_matches-EndsMatched fuel enough = find_from-EndsMatched fuel none [] enough tt
