-- ===== src/Http/Bulk/Answered.antt =====
-- Every id of a bulk request is answered once.
use irods_go_drs.Base.{◌≡◌, refl, Bool, true, false, not, Bool-cases, arith, Option, none, some}
use irods_go_drs.Base.{List, [], ◌∷◌, map, filter, length, inl, inr}
use irods_go_drs.Base.Exec.{Result, ok, err}
use irods_go_drs.Text.{Text, codes, contains}
use irods_go_drs.Access.Config.{DrsConfig}
use irods_go_drs.Http.Status.{GoError}
use irods_go_drs.Http.Urls.{UrlLibrary}
use irods_go_drs.Http.Bulk.{
  Authorizations, BulkAuthorizations, authorizations_from_config, Sorted, put_id, to_int32,
  sort_ids, bulk_response, bulk_authorizations_from_ids,
}

module _ (U : UrlLibrary) (cfg : DrsConfig) (resolve : Text → Option GoError) where
  abbrev pub is_resolved : Option GoError → Bool
  is_resolved none = true
  is_resolved (some e) = false

  abbrev pub resolves : Text → Bool
  resolves id = is_resolved (resolve id)

  abbrev pub fails : Text → Bool
  fails id = not (resolves id)

  abbrev pub authorize : Text → Authorizations
  authorize id = authorizations_from_config U id cfg

  -- The ids that resolve have their authorizations, and the others are listed as missing.
  abbrev IsSorted : List Text → Result GoError (Sorted U cfg resolve) → Type 0
  IsSorted ids (err e) = Unit
  IsSorted ids (ok (found, missing)) =
      (found ≡ map authorize (filter resolves ids))
      × (missing ≡ filter fails ids)
      × (length found ≡ length (filter resolves ids))

  put_id-IsSorted :
      (id : Text) (ids : List Text) (o : Option GoError)
      (rest : Result GoError (Sorted U cfg resolve))
      → resolve id ≡ o
      → IsSorted ids rest
      → IsSorted (id ∷ ids) (put_id U cfg resolve id o rest)
  put_id-IsSorted id ids none (err e) r h = tt
  put_id-IsSorted id ids none (ok (found, missing)) r h =
      rw r (ground (arith, h.0), ground (arith, h.1), ground (arith, h.2))
  put_id-IsSorted id ids (some e) (err f) r h =
      elim (Bool-cases (contains e.text (codes "not found"))) [ inl c ↦ rw c tt | inr c ↦ rw c tt ]
  put_id-IsSorted id ids (some e) (ok (found, missing)) r h =
      elim (Bool-cases (contains e.text (codes "not found"))) [
        | inl c ↦ rw (c, r) (h.0, ground (arith, h.1), ground (arith, h.2))
        | inr c ↦ rw c tt
      ]

  sort_ids-IsSorted : (ids : List Text) → IsSorted ids (sort_ids U cfg resolve ids)
  unfolding sort_ids
  sort_ids-IsSorted [] = (refl, refl, refl)
  sort_ids-IsSorted (id ∷ ids) =
      put_id-IsSorted id ids (resolve id) (sort_ids U cfg resolve ids) refl (sort_ids-IsSorted ids)

  abbrev pub IsAnswered : List Text → BulkAuthorizations → Type 0
  IsAnswered ids r =
      (r.resolved_drs_object ≡ map authorize (filter resolves ids))
      × (r.unresolved_ids ≡ filter fails ids)
      × (r.summary.requested ≡ to_int32 (length ids))
      × (r.summary.resolved ≡ to_int32 (length (filter resolves ids)))
      × (r.summary.unresolved ≡ to_int32 (length (filter fails ids)))

  bulk_response-IsAnswered :
      (ids : List Text) (found : Result GoError (Sorted U cfg resolve)) (r : BulkAuthorizations)
      → IsSorted ids found
      → bulk_response U cfg resolve ids found ≡ ok r
      → IsAnswered ids r
  bulk_response-IsAnswered ids (err e) r h eq = absurd (ground arith)
  bulk_response-IsAnswered ids (ok (found, missing)) r h eq = (
    ground (arith, eq, h.0),
    ground (arith, eq, h.1),
    ground (arith, eq),
    ground (arith, eq, h.2),
    ground (arith, eq, h.1),
  )

  -- A bulk request for authorizations that succeeds gives, in the order of the ids, the
  -- authorizations of those that resolve, and lists the others as unresolved; its summary holds
  -- the number of ids of the request, of those that resolve and of the others, each modulo 2^32.
  pub bulk_authorizations_from_ids-IsAnswered :
      (ids : List Text) (r : BulkAuthorizations)
      → bulk_authorizations_from_ids U cfg resolve ids ≡ ok r
      → IsAnswered ids r
  unfolding bulk_authorizations_from_ids
  bulk_authorizations_from_ids-IsAnswered ids r h =
      bulk_response-IsAnswered ids (sort_ids U cfg resolve ids) r (sort_ids-IsSorted ids) h
