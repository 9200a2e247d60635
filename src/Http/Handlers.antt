-- ===== src/Http/Handlers.antt =====
-- The handlers (internal/api_objects.go) behind the middlewares. A handler answers, or refuses with a
-- status and a message; `panics` is a nil object that is looked into. The text that an error is formatted
-- to is an argument, and so are the connections and the bodies of requests. The reads take fuel; `none`
-- means that it ran out.
use irods_go_drs.Base.{
  ℕ, Bool, true, false, ◌&&◌, ◌||◌, not, Option, none, some, List, ◌++◌, is_nil, all, eqb,
  if◌then◌else◌,
}
use irods_go_drs.Base.Exec.{Result, ok, err}
use irods_go_drs.Text.{Text, codes, ◌==◌, contains, equal_fold, trim_space}
use irods_go_drs.Model.{InternalDrsObject}
use irods_go_drs.Irods.Interface.{Client, ClientError, Error, EntryQuery, EntryQueryResult}
use irods_go_drs.Access.Config.{DrsConfig}
use irods_go_drs.Access.Methods.{DrsAccessMethod}
use irods_go_drs.Access.Search.{build_access_methods_with_filesystem}
use irods_go_drs.Compound.Build.{Built}
use irods_go_drs.Compound.Runtime.{CompoundRuntimeManifest, Digest, build_compound_runtime_manifest}
use irods_go_drs.Resolve.{get_drs_object_by_id}
use irods_go_drs.Http.Status.{
  GoError, bad_request, not_found, internal_server_error, not_implemented, unauthorized,
  route_error_status, route_operation_client_message, route_file_system_message,
}
use irods_go_drs.Http.Urls.{UrlLibrary}
use irods_go_drs.Http.AccessUrls.{
  AccessUrl, AccessError, Answer, TicketLibrary, validate_configured_https_provider,
  access_url_for_object,
}
use irods_go_drs.Http.Response.{DrsObject, drs_object_from_internal}
use irods_go_drs.Http.Bulk.{
  Authorizations, BulkAuthorizations, authorizations_from_config, normalized_bulk_object_ids,
  bulk_authorizations_from_ids,
}

pub data Reply (A : Type 0) : Type 0 where
  answered : A → Reply A
  refused : ℕ → Text → Reply A
  panics : Reply A

abbrev pub provider_refusal : {A : Type 0} → Reply A
provider_refusal =
    refused not_implemented (codes "https access provider is not supported in this deployment")

-- `writeUnsupportedOperation`, with which the handlers of the POST routes and `Index` answer.
unfoldable pub write_unsupported_operation : {A : Type 0} → Text → Reply A
write_unsupported_operation endpoint =
    let e = trim_space endpoint in
    refused not_implemented (
      (if is_nil e then codes "requested endpoint" else e)
      ++ codes " is not supported in this deployment")

-- What the handlers work with: the connection that is made for a request, and the text of an error.
pub record Backend (C : Client) : Type 0 where
  pub connect : Result GoError C.State
  pub query : C.State → EntryQuery → Result ClientError EntryQueryResult
  pub describe : Error → GoError
  pub describe_access : Text → Text → AccessError → GoError
  pub digest : Digest
  pub fuel : ℕ

module _ (U : UrlLibrary) (C : Client) (B : Backend C) (cfg : DrsConfig) where
  abbrev pub lookup_refusal : {A : Type 0} → GoError → Reply A
  lookup_refusal e =
      refused (route_error_status e) (
        route_operation_client_message (route_error_status e)
          (codes "failed to resolve DRS object"))

  abbrev pub of_found :
      {A : Type 0}
      → Reply A
      → (InternalDrsObject → Option (Reply A))
      → Built (Option InternalDrsObject)
      → Option (Reply A)
  of_found on_nil next none = none
  of_found on_nil next (some (err e)) = some (lookup_refusal (B.describe e))
  of_found on_nil next (some (ok none)) = some on_nil
  of_found on_nil next (some (ok (some object))) = next object

  abbrev pub connected :
      {A : Type 0} → (C.State → Option (Reply A)) → Result GoError C.State → Option (Reply A)
  connected next (err e) =
      some (refused (route_error_status e) (route_file_system_message (route_error_status e)))
  connected next (ok s) = next s

  -- The part that the handlers of one object share: the id, the connection and the lookup.
  abbrev pub with_object :
      {A : Type 0}
      → Text
      → Reply A
      → (C.State → InternalDrsObject → Option (Reply A))
      → Option (Reply A)
  with_object id on_nil next =
      connected
        (λ s. of_found on_nil (next s) (get_drs_object_by_id C B.digest B.fuel s (B.query s) id))
        B.connect

  abbrev pub missing_id : {A : Type 0} → Option (Reply A)
  missing_id = some (refused bad_request (codes "missing object_id"))

  abbrev pub object_reply : Option DrsObject → Reply DrsObject
  object_reply none = refused internal_server_error (codes "failed to build DRS object response")
  object_reply (some response) = answered response

  abbrev pub object_response :
      Text → Bool → InternalDrsObject → Option (List DrsAccessMethod) → Option (Reply DrsObject)
  object_response alias expand object none = none
  object_response alias expand object (some methods) =
      some (object_reply (drs_object_from_internal U cfg methods alias object expand))

  abbrev pub checked_object : Text → Bool → C.State → InternalDrsObject → Option (Reply DrsObject)
  checked_object alias expand s object =
      if object.is_manifest || validate_configured_https_provider cfg
      then object_response alias expand object
          (build_access_methods_with_filesystem C s U.urls B.fuel cfg object)
      else some provider_refusal

  -- `GetObject`: the id of the route, the query's `expand`, and the address of an object in iRODS.
  unfoldable pub get_object : Text → Text → (InternalDrsObject → Text) → Option (Reply DrsObject)
  get_object object_id expand alias_of =
      let id = trim_space object_id in
      if is_nil id
      then missing_id
      else with_object id panics (λ s object.
        checked_object (alias_of object) (equal_fold (trim_space expand) (codes "true")) s object)

  abbrev pub manifest_reply : Built CompoundRuntimeManifest → Option (Reply CompoundRuntimeManifest)
  manifest_reply none = none
  manifest_reply (some (err e)) =
      some (refused internal_server_error (codes "failed to build compound manifest"))
  manifest_reply (some (ok manifest)) = some (answered manifest)

  -- `GetCompoundManifestExt`; the manifest is marshalled as it is.
  unfoldable pub get_compound_manifest_ext :
      (Text → Text) → Text → Option (Reply CompoundRuntimeManifest)
  get_compound_manifest_ext quote object_id =
      let id = trim_space object_id in
      if is_nil id
      then missing_id
      else with_object id panics (λ s object.
        if object.is_manifest
        then manifest_reply (build_compound_runtime_manifest C s B.fuel object.absolute_path)
        else some (
            refused bad_request
              (codes "DRS object " ++ (quote id ++ codes " is not a compound object"))))

  module _ (T : TicketLibrary) (tickets : T.State) where
    -- The message of an error of the status: that of the operation, or its own text.
    abbrev pub access_message : ℕ → GoError → Text
    access_message status e =
        if eqb status internal_server_error
          || (eqb status unauthorized || (eqb status bad_request || eqb status not_found))
        then route_operation_client_message status (codes "failed to resolve access URL")
        else e.text

    abbrev pub access_status : ℕ → GoError → ℕ
    access_status status e =
        if eqb status internal_server_error then route_error_status e else status

    abbrev pub access_reply : Text → Text → Answer → Reply AccessUrl
    access_reply id access_id (ok url) = answered url
    access_reply id access_id (err (status, e)) =
        let described = B.describe_access id access_id e in
        refused (access_status status described)
          (access_message (access_status status described) described)

    abbrev pub access_of :
        Text → Text → InternalDrsObject → Option (List DrsAccessMethod) → Option (Reply AccessUrl)
    access_of id access_id object none = none
    access_of id access_id object (some methods) = some (
        access_reply id access_id
          (access_url_for_object U T cfg object methods id access_id tickets).0)

    -- `GetAccessURL`, its answer; a nil object is an internal error of it.
    unfoldable pub get_access_url : Text → Text → Option (Reply AccessUrl)
    get_access_url object_id access_id =
        let id = trim_space object_id in
        let access = trim_space access_id in
        if is_nil id
        then missing_id
        else if is_nil access
        then some (refused bad_request (codes "missing access_id"))
        else if not (access == codes "irods-compound-https")
            && not (validate_configured_https_provider cfg)
        then some provider_refusal
        else with_object id (refused internal_server_error (codes "internal server error"))
            (λ s object.
              access_of id access object
                (build_access_methods_with_filesystem C s U.urls B.fuel cfg object))

  -- The handlers of the OPTIONS routes connect as the administrator.
  abbrev pub admin_connected :
      {A : Type 0} → (C.State → Option (Reply A)) → Result GoError C.State → Option (Reply A)
  admin_connected next (err e) =
      some (refused internal_server_error (codes "failed to connect to iRODS"))
  admin_connected next (ok s) = next s

  abbrev pub options_status : GoError → ℕ
  options_status e =
      if contains e.text (codes "not found")
      then not_found
      else if contains e.text (codes "required")
      then bad_request
      else internal_server_error

  abbrev pub authorizations_of :
      Text → Built (Option InternalDrsObject) → Option (Reply Authorizations)
  authorizations_of id none = none
  authorizations_of id (some (err e)) =
      let status = options_status (B.describe e) in
      some (
        refused status
          (route_operation_client_message status (codes "failed to resolve DRS object")))
  authorizations_of id (some (ok found)) = some (answered (authorizations_from_config U id cfg))

  -- `OptionsObject`, for a configuration that was read.
  unfoldable pub options_object : Text → Option (Reply Authorizations)
  options_object object_id =
      let id = trim_space object_id in
      if not (validate_configured_https_provider cfg)
      then some provider_refusal
      else if is_nil id
      then missing_id
      else admin_connected
          (λ s. authorizations_of id (get_drs_object_by_id C B.digest B.fuel s (B.query s) id))
          B.connect

  abbrev pub bulk_reply : Result GoError BulkAuthorizations → Reply BulkAuthorizations
  bulk_reply (err e) =
      refused internal_server_error (codes "failed to resolve DRS object authorizations")
  bulk_reply (ok response) = answered response

  -- How an id resolves: nothing, or the error. A lookup that has not ended counts as resolved here,
  -- and is told apart below.
  abbrev pub resolution_error : Built (Option InternalDrsObject) → Option GoError
  resolution_error (some (err e)) = some (B.describe e)
  resolution_error _ = none

  abbrev pub has_ended : Built (Option InternalDrsObject) → Bool
  has_ended none = false
  has_ended (some r) = true

  abbrev pub lookup : C.State → Text → Built (Option InternalDrsObject)
  lookup s id = get_drs_object_by_id C B.digest B.fuel s (B.query s) id

  abbrev pub bulk_response_of : List Text → C.State → Option (Reply BulkAuthorizations)
  bulk_response_of ids s =
      if all (λ id. has_ended (lookup s id)) ids
      then some (
          bulk_reply
            (bulk_authorizations_from_ids U cfg (λ id. resolution_error (lookup s id)) ids))
      else none

  abbrev pub bulk_of_body : Option (List Text) → Option (Reply BulkAuthorizations)
  bulk_of_body none = some (refused bad_request (codes "invalid request body"))
  bulk_of_body (some given) =
      let ids = normalized_bulk_object_ids given in
      if is_nil ids
      then some (refused bad_request (codes "bulk_object_ids must contain at least one object id"))
      else admin_connected (bulk_response_of ids) B.connect

  -- `OptionsBulkObject`, for a configuration that was read; `none` is a body that is not decoded.
  unfoldable pub options_bulk_object : Option (List Text) → Option (Reply BulkAuthorizations)
  options_bulk_object body =
      if validate_configured_https_provider cfg then bulk_of_body body else some provider_refusal
