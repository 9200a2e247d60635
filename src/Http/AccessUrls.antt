-- ===== src/Http/AccessUrls.antt =====
-- `accessURLForObject` (internal/api_objects.go): the address behind an access id, or a status with an
-- error. The tickets of the extension library, its iRODS addresses and `%q` of `fmt` are parameters.
use irods_go_drs.Base.{
  ℕ, Bool, ◌||◌, not, Option, none, some, List, [], ◌∷◌, ◌++◌, is_nil, eqb, if◌then◌else◌,
}
use irods_go_drs.Base.Exec.{Result, ok, err, Exec}
use irods_go_drs.Text.{Text, codes, ◌==◌, trim_space}
use irods_go_drs.Model.{Account, InternalDrsObject}
use irods_go_drs.Compound.Preview.{account_host, account_port}
use irods_go_drs.Access.Config.{DrsConfig}
use irods_go_drs.Access.Ids.{
  ParsedHttpsAccessId, parse_https_access_id, effective_https_access_provider,
  is_supported_https_access_provider,
}
use irods_go_drs.Access.Resources.{primary_replica_resource_name}
use irods_go_drs.Access.Affinity.{resolve_affinity_host_for_resource}
use irods_go_drs.Access.Methods.{DrsAccessMethod, resolve_https_access_base_url}
use irods_go_drs.Http.Status.{GoError, not_found, internal_server_error, not_implemented}
use irods_go_drs.Http.Urls.{UrlLibrary, compound_manifest_url}

pub record AccessUrl : Type 0 where
  pub url : Text
  pub headers : List Text

-- The errors, by their messages; `ticket_failed` wraps one of the library.
pub data AccessError : Type 0 where
  https_not_enabled irods_not_enabled : AccessError
  unsupported_provider : Text → AccessError
  provider_mismatch : Text → Text → AccessError
  access_id_not_found unsupported_type : Text → AccessError
  no_manifest_url no_https_base_url no_host_and_port no_zone no_path empty_ticket_id : AccessError
  ticket_failed uri_failed : GoError → AccessError

abbrev pub Answer : Type 0
Answer = Result (ℕ × AccessError) AccessUrl

pub record TicketLibrary : Type 1 where
  pub State : Type 0
  -- `CreateAnonymousDataObjectBearerToken`: a path, a use limit and a lifetime give a ticket and a token.
  pub create_ticket : Text → ℕ → ℕ → Exec State GoError (Text × Text)
  -- `BuildWithTicket`: host, port, zone, path and ticket.
  pub build_with_ticket : Text → ℕ → Text → Text → Text → Result GoError Text
  -- `GetAccount` of the connection.
  pub account : Option Account

-- `accessMethodTypeByAccessID`: the type of the first method with the id.
unfoldable pub method_type : List DrsAccessMethod → Text → Option Text
method_type [] id = none
method_type (m ∷ methods) id =
    let rest = method_type methods id in
    if trim_space m.access_id == id
    then some (if is_nil (trim_space m.type) then codes "unknown" else trim_space m.type)
    else rest

unfoldable pub access_method_type_by_access_id : List DrsAccessMethod → Text → Option Text
access_method_type_by_access_id methods access_id =
    if is_nil (trim_space access_id) then none else method_type methods (trim_space access_id)

-- `validateConfiguredHTTPSProvider`: whether the provider is supported, where there is one at all.
unfoldable pub validate_configured_https_provider : DrsConfig → Bool
validate_configured_https_provider cfg =
    not cfg.https_access_method_supported
    || (let provider = effective_https_access_provider cfg.https_access_implementation in
        provider == codes "irods-go-rest" || provider == codes "irods-https-api")

abbrev pub bearer_header : Text → Text
bearer_header token = codes "Authorization: Bearer " ++ token

module _ (U : UrlLibrary) (T : TicketLibrary) (cfg : DrsConfig) (object : InternalDrsObject) where
  abbrev pub Action : Type 0
  Action = T.State → Answer × T.State

  abbrev pub refuse_access : ℕ → AccessError → Action
  refuse_access status e s = (err (status, e), s)

  abbrev pub with_ticket : (Text → Text → Action) → Result GoError (Text × Text) → Action
  with_ticket next (err e) s = (err (internal_server_error, ticket_failed e), s)
  with_ticket next (ok (ticket_id, token)) s =
      if is_nil (trim_space ticket_id)
      then (err (internal_server_error, empty_ticket_id), s)
      else next ticket_id token s

  -- A ticket for the object, with which the rest goes on.
  unfoldable pub ticketed : (Text → Text → Action) → Action
  ticketed next s =
      let r =
        T.create_ticket object.absolute_path cfg.default_ticket_use_limit
          cfg.default_ticket_lifetime_minutes s in
      with_ticket next r.0 r.1

  -- The resource of the id, or else the first that holds the object, decides on the host.
  unfoldable pub preferred_host : Text → Text
  preferred_host resource =
      let r =
        if is_nil (trim_space resource)
        then primary_replica_resource_name object
        else trim_space resource in
      if is_nil r then [] else resolve_affinity_host_for_resource cfg r

  abbrev pub provider_answer : Text → List Text → Answer
  provider_answer base headers =
      ok (record {
        url = base ++ U.query_escape (trim_space object.absolute_path);
        headers = headers;
      })

  unfoldable pub build_https_provider_access_url : ParsedHttpsAccessId → Action
  build_https_provider_access_url parsed s =
      let configured = effective_https_access_provider cfg.https_access_implementation in
      let base =
        resolve_https_access_base_url U.urls cfg.https_access_method_base_url
          (preferred_host parsed.resource) in
      if not cfg.https_access_method_supported
      then (err (not_implemented, https_not_enabled), s)
      else if not (is_supported_https_access_provider configured)
      then (
        err (not_implemented, unsupported_provider (trim_space cfg.https_access_implementation)),
        s,
      )
      else if not (parsed.provider == configured)
      then (err (not_found, provider_mismatch parsed.provider configured), s)
      else if is_nil base
      then (err (internal_server_error, no_https_base_url), s)
      else if cfg.https_access_use_ticket
      then ticketed (λ ticket_id token t. (provider_answer base (bearer_header token ∷ []), t)) s
      else (provider_answer base [], s)

  -- The first of the configured hosts that is not blank, or that of the connection.
  unfoldable pub access_host : Text
  access_host =
      if is_nil (trim_space cfg.irods_access_host)
      then (if is_nil (trim_space cfg.irods_host)
          then account_host T.account
          else trim_space cfg.irods_host)
      else trim_space cfg.irods_access_host

  unfoldable pub access_port : ℕ
  access_port =
      if eqb cfg.irods_access_port 0
      then (if eqb cfg.irods_port 0 then account_port T.account else cfg.irods_port)
      else cfg.irods_access_port

  unfoldable pub access_zone : Text
  access_zone =
      if is_nil (trim_space object.irods_zone)
      then trim_space cfg.irods_zone
      else trim_space object.irods_zone

  abbrev pub uri_answer : Result GoError Text → Answer
  uri_answer (err e) = err (internal_server_error, uri_failed e)
  uri_answer (ok uri) = ok (record { url = uri; headers = [] })

  unfoldable pub build_irods_access_url : Action
  build_irods_access_url s =
      if not cfg.irods_access_method_supported
      then (err (not_implemented, irods_not_enabled), s)
      else if is_nil access_host || eqb access_port 0
      then (err (internal_server_error, no_host_and_port), s)
      else if is_nil access_zone
      then (err (internal_server_error, no_zone), s)
      else if is_nil (trim_space object.absolute_path)
      then (err (internal_server_error, no_path), s)
      else ticketed
          (λ ticket_id token t. (
            uri_answer (
                T.build_with_ticket access_host access_port access_zone object.absolute_path
                  ticket_id),
            t,
          ))
          s

  abbrev pub manifest_answer : Option Text → Answer
  manifest_answer none = err (internal_server_error, no_manifest_url)
  manifest_answer (some url) = ok (record { url = url; headers = [] })

  -- What an id that is no HTTPS access id answers: the type of its method where it has one.
  abbrev pub unsupported_answer : Text → Option Text → Answer
  unsupported_answer access_id none = err (not_found, access_id_not_found access_id)
  unsupported_answer access_id (some type) = err (not_implemented, unsupported_type type)

  -- The methods of the object are those that `BuildAccessMethodsWithFilesystem` gives.
  abbrev pub of_other_id : List DrsAccessMethod → Text → Option ParsedHttpsAccessId → Action
  of_other_id methods access_id (some parsed) s = build_https_provider_access_url parsed s
  of_other_id methods access_id none s =
      (unsupported_answer access_id (access_method_type_by_access_id methods access_id), s)

  unfoldable pub access_url_for_object : List DrsAccessMethod → Text → Text → Action
  access_url_for_object methods object_id access_id =
      if trim_space access_id == codes "irods-compound-https"
      then (if object.is_manifest
          then (λ s. (manifest_answer (compound_manifest_url U cfg object_id), s))
          else refuse_access not_found (access_id_not_found access_id))
      else if trim_space access_id == codes "irods"
      then build_irods_access_url
      else of_other_id methods access_id (parse_https_access_id access_id)
