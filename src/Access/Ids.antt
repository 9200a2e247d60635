-- ===== src/Access/Ids.antt =====
-- HTTPS access ids: how they are built from a provider and a resource, and how they are parsed.
pub mod RoundTrip
use irods_go_drs.Base.{Bool, true, false, ◌||◌, Option, none, some, List, [], ◌∷◌, ◌++◌, is_nil}
use irods_go_drs.Base.{if◌then◌else◌}
use irods_go_drs.Text.{Text, codes, ◌==◌, trim_space, to_lower, has_prefix, trim_prefix, cut_prefix}

abbrev pub irods_go_rest : Text
irods_go_rest = codes "irods-go-rest"

abbrev pub irods_https_api : Text
irods_https_api = codes "irods-https-api"

unfoldable pub normalize_https_access_provider : Text → Text
unfolding to_lower trim_space
normalize_https_access_provider provider = to_lower (trim_space provider)

unfoldable pub effective_https_access_provider : Text → Text
unfolding normalize_https_access_provider
effective_https_access_provider provider =
    if is_nil (normalize_https_access_provider provider)
    then irods_go_rest
    else normalize_https_access_provider provider

unfoldable pub is_supported_https_access_provider : Text → Bool
unfolding normalize_https_access_provider ◌==◌
is_supported_https_access_provider provider =
    normalize_https_access_provider provider == irods_go_rest
    || normalize_https_access_provider provider == irods_https_api

unfoldable pub build_https_default_access_id : Text → Text
unfolding effective_https_access_provider
build_https_default_access_id provider = effective_https_access_provider provider ++ codes "-https"

unfoldable pub build_https_affinity_access_id : Text → Text → Text
build_https_affinity_access_id provider resource =
    build_https_default_access_id provider ++ (codes "-" ++ trim_space resource)

pub record ParsedHttpsAccessId : Type 0 where
  pub provider : Text
  pub resource : Text

-- The loop over the providers: the default id, an id with a resource, or the next provider.
unfoldable pub parse_for : List Text → Text → Option ParsedHttpsAccessId
parse_for [] id = none
parse_for (provider ∷ providers) id =
    let rest = parse_for providers id in
    let default_id = build_https_default_access_id provider in
    let resource = trim_space (trim_prefix id (default_id ++ codes "-")) in
    if id == default_id
    then some (record { provider = provider; resource = [] })
    else if has_prefix id (default_id ++ codes "-")
    then (if is_nil resource
        then none
        else some (record { provider = provider; resource = resource }))
    else rest

unfoldable pub parse_https_access_id : Text → Option ParsedHttpsAccessId
unfolding parse_for
parse_https_access_id access_id =
    let id = trim_space access_id in
    if is_nil id || has_prefix id (codes "irods-go-rest-https-affinity-")
    then none
    else parse_for (irods_go_rest ∷ irods_https_api ∷ []) id
