-- ===== src/Http/Bulk.antt =====
-- The authorizations of objects (internal/api_objects.go): `authorizationsFromConfig` and
-- `bulkAuthorizationsFromIDs`. The resolution of an id is an argument.
pub mod Answered
use irods_go_drs.Base.{
  ℕ, ◌%◌, Bool, Option, none, some, List, [], ◌∷◌, ◌++◌, is_nil, length, if◌then◌else◌,
}
use irods_go_drs.Base.Exec.{Result, ok, err}
use irods_go_drs.Text.{Text, codes, trim_space, contains}
use irods_go_drs.Access.Config.{DrsConfig}
use irods_go_drs.Http.Status.{GoError}
use irods_go_drs.Http.Urls.{UrlLibrary}
use irods_go_drs.Http.Response.{issuers}

pub record Authorizations : Type 0 where
  pub drs_object_id : Text
  pub supported_types : List Text
  pub bearer_auth_issuers : List Text

unfoldable pub authorizations_from_config : UrlLibrary → Text → DrsConfig → Authorizations
authorizations_from_config U object_id cfg = record {
  drs_object_id = trim_space object_id;
  supported_types = codes "BasicAuth" ∷ codes "BearerAuth" ∷ [];
  bearer_auth_issuers = issuers U cfg;
}

-- The conversion to an `int32`, which is held as its 32 bits.
abbrev pub to_int32 : ℕ → ℕ
to_int32 n = n % 4294967296

-- `Summary`
pub record Summary : Type 0 where
  pub requested : ℕ
  pub resolved : ℕ
  pub unresolved : ℕ

-- `InlineResponse2002`; all unresolved ids have the code 404.
pub record BulkAuthorizations : Type 0 where
  pub summary : Summary
  pub resolved_drs_object : List Authorizations
  pub unresolved_ids : List Text

unfoldable pub normalized_bulk_object_ids : List Text → List Text
normalized_bulk_object_ids [] = []
normalized_bulk_object_ids (id ∷ ids) =
    let rest = normalized_bulk_object_ids ids in
    if is_nil (trim_space id) then rest else trim_space id ∷ rest

module _ (U : UrlLibrary) (cfg : DrsConfig) (resolve : Text → Option GoError) where
  -- What is known of the ids so far: the authorizations, and the ids that were not found.
  abbrev pub Sorted : Type 0
  Sorted = List Authorizations × List Text

  abbrev pub put_resolved : Text → Result GoError Sorted → Result GoError Sorted
  put_resolved id (err e) = err e
  put_resolved id (ok (found, missing)) = ok (authorizations_from_config U id cfg ∷ found, missing)

  abbrev pub put_missing : Text → Result GoError Sorted → Result GoError Sorted
  put_missing id (err e) = err e
  put_missing id (ok (found, missing)) = ok (found, id ∷ missing)

  -- One id in front of the others: an error that does not say that it was not found ends the loop.
  abbrev pub put_id : Text → Option GoError → Result GoError Sorted → Result GoError Sorted
  put_id id none rest = put_resolved id rest
  put_id id (some e) rest =
      if contains e.text (codes "not found") then put_missing id rest else err e

  unfoldable pub sort_ids : List Text → Result GoError Sorted
  sort_ids [] = ok ([], [])
  sort_ids (id ∷ ids) = put_id id (resolve id) (sort_ids ids)

  abbrev pub bulk_response : List Text → Result GoError Sorted → Result GoError BulkAuthorizations
  bulk_response ids (err e) = err e
  bulk_response ids (ok (found, missing)) = ok (record {
    summary = record {
      requested = to_int32 (length ids);
      resolved = to_int32 (length found);
      unresolved = to_int32 (length missing);
    };
    resolved_drs_object = found;
    unresolved_ids = missing;
  })

  unfoldable pub bulk_authorizations_from_ids : List Text → Result GoError BulkAuthorizations
  bulk_authorizations_from_ids ids = bulk_response ids (sort_ids ids)
