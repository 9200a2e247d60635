-- ===== src/Access/Ids/RoundTrip.antt =====
-- Parsing the access ids that the service builds.
use irods_go_drs.Base.{◌≡◌, refl, ◌∙◌, ap, Bool, false, Option, none, some}
use irods_go_drs.Base.{[], ◌++◌, is_nil, if◌then◌else◌}
use irods_go_drs.Text.{
  Text, codes, is_space, ◌==◌, trim_space, trim_space_idem, trim_space-append, has_prefix,
  trim_prefix,
}
use irods_go_drs.Access.Ids.{
  irods_go_rest, irods_https_api, build_https_default_access_id, build_https_affinity_access_id,
  ParsedHttpsAccessId, parse_https_access_id,
}

-- The two providers that the service supports.
pub data Provider : Type 0 where
  go_rest https_api : Provider

abbrev pub provider_name : Provider → Text
provider_name go_rest = irods_go_rest
provider_name https_api = irods_https_api

default_id_of :
    (p : Provider)
    → build_https_default_access_id (provider_name p) ≡ provider_name p ++ codes "-https"
unfolding build_https_default_access_id
default_id_of go_rest = refl
default_id_of https_api = refl

-- The default id of a supported provider parses to that provider with no resource.
pub parse-build_default :
    (p : Provider)
    → parse_https_access_id (build_https_default_access_id (provider_name p))
      ≡ some (record { provider = provider_name p; resource = [] })
unfolding parse_https_access_id build_https_default_access_id has_prefix trim_prefix trim_space ◌==◌
parse-build_default go_rest = refl
parse-build_default https_api = refl

-- The retired prefix that the parser refuses.
abbrev pub retired : Text
retired = codes "affinity-"

-- Whether the parser refuses the id of a resource.
abbrev pub is_retired : Provider → Text → Bool
is_retired go_rest resource = has_prefix resource retired
is_retired https_api resource = false

abbrev pub parsed_id : Provider → Text → Option ParsedHttpsAccessId
parsed_id p resource =
    if is_retired p resource
    then none
    else some (record { provider = provider_name p; resource = resource })

parse_of_trimmed :
    (p : Provider) (t : Text)
    → trim_space ((provider_name p ++ codes "-https-") ++ t)
      ≡ (provider_name p ++ codes "-https-") ++ t
    → trim_space t ≡ t
    → is_nil t ≡ false
    → parse_https_access_id ((provider_name p ++ codes "-https-") ++ t) ≡ parsed_id p t
unfolding parse_https_access_id build_https_default_access_id has_prefix trim_prefix ◌==◌
parse_of_trimmed go_rest t e f h = rw (e, f, h)
parse_of_trimmed https_api t e f h = rw (e, f, h)

build_of_provider :
    (p : Provider) (resource : Text)
    → build_https_affinity_access_id (provider_name p) resource
      ≡ (provider_name p ++ codes "-https-") ++ trim_space resource
unfolding build_https_affinity_access_id build_https_default_access_id
build_of_provider go_rest resource = refl
build_of_provider https_api resource = refl

trimmed_id :
    (p : Provider) (resource : Text)
    → is_nil (trim_space resource) ≡ false
    → trim_space ((provider_name p ++ codes "-https-") ++ trim_space resource)
      ≡ (provider_name p ++ codes "-https-") ++ trim_space resource
unfolding is_space
trimmed_id go_rest resource h =
    trim_space-append (irods_go_rest ++ codes "-https-") resource refl refl h
trimmed_id https_api resource h =
    trim_space-append (irods_https_api ++ codes "-https-") resource refl refl h

-- For a resource name that is not blank, the access id of a supported provider parses back to that
-- provider and the trimmed name, but for one case: under the first provider a trimmed name that begins
-- with `affinity-` gives an id that the parser refuses.
pub parse-build_affinity :
    (p : Provider) (resource : Text)
    → is_nil (trim_space resource) ≡ false
    → parse_https_access_id (build_https_affinity_access_id (provider_name p) resource)
      ≡ parsed_id p (trim_space resource)
parse-build_affinity p resource h =
    ap parse_https_access_id (build_of_provider p resource)
    ∙ parse_of_trimmed p (trim_space resource) (trimmed_id p resource h) (trim_space_idem resource)
        h
