-- ===== src/Http/Document.antt =====
-- The OpenAPI document with the address of the server (internal/api_docs.go), and the table of routes
-- (internal/routers.go).
use irods_go_drs.Base.{
  ◌≡◌, refl, Bool, true, false, ◌||◌, Option, none, some, List, [], ◌∷◌, ◌++◌, is_nil, eqb,
  if◌then◌else◌,
}
use irods_go_drs.Text.{Text, codes, has_prefix, trim_prefix, trim_space}

-- `strings.Index`: what stands before the first occurrence, and the rest from it on.
unfoldable pub split_before : Text → Text → Option (Text × Text)
split_before p [] = if is_nil p then some ([], []) else none
split_before p (c ∷ s) =
    let rest = split_before p s in
    if has_prefix (c ∷ s) p
    then some ([], c ∷ s)
    else elim rest [ none ↦ none | some r ↦ some (c ∷ r.0, r.1) ]

-- The blanks and tabs at the front, and the rest.
unfoldable pub split_blanks : Text → Text × Text
split_blanks [] = ([], [])
split_blanks (c ∷ s) =
    let (blanks, rest) = split_blanks s in
    if eqb c b' ' || eqb c 9 then (c ∷ blanks, rest) else ([], c ∷ s)

abbrev pub line_tail : Option (Text × Text) → Text
line_tail none = []
line_tail (some (line, tail)) = tail

abbrev pub in_default : Text → Text → Text → Option (Text × Text) → Text
in_default spec url before none = spec
in_default spec url before (some (between, found)) =
    let value = split_blanks (trim_prefix found (codes "default:")) in
    before
    ++ (between
        ++ (codes "default:" ++ (value.0 ++ (url ++ line_tail (split_before (10 ∷ []) value.1)))))

abbrev pub in_server_url : Text → Text → Option (Text × Text) → Text
in_server_url spec url none = spec
in_server_url spec url (some (before, found)) =
    in_default spec url before (split_before (codes "default:") found)

-- `openAPISpecWithServerURL`
unfoldable pub open_api_spec_with_server_url : Text → Text → Text
open_api_spec_with_server_url spec server_url =
    let url = trim_space server_url in
    if is_nil url then spec else in_server_url spec url (split_before (codes "serverURL:") spec)

pub data Method : Type 0 where
  get post options : Method

pub record Route : Type 0 where
  pub name : Text
  pub method : Method
  pub pattern : Text
  pub requires_auth : Bool

abbrev pub route : Text → Method → Text → Bool → Route
route name method pattern requires_auth = record {
  name = name;
  method = method;
  pattern = pattern;
  requires_auth = requires_auth;
}

abbrev pub base_path : Text
base_path = codes "/ga4gh/drs/v1/"

abbrev pub routes : List Route
routes =
    route (codes "Index") get base_path false
    ∷ route (codes "GetOpenAPISpec") get (codes "/openapi.yaml") false
    ∷ route (codes "GetSwaggerUI") get (codes "/swagger") false
    ∷ route (codes "GetAccessURL") get (base_path ++ codes "objects/{object_id}/access/{access_id}")
        true
    ∷ route (codes "GetBulkAccessURL") post (base_path ++ codes "objects/access") true
    ∷ route (codes "GetBulkObjects") post (base_path ++ codes "objects") true
    ∷ route (codes "GetObject") get (base_path ++ codes "objects/{object_id}") true
    ∷ route (codes "GetCompoundManifestExt") get (base_path ++ codes "ext/compound/{object_id}")
        true
    ∷ route (codes "OptionsBulkObject") options (base_path ++ codes "objects") false
    ∷ route (codes "OptionsObject") options (base_path ++ codes "objects/{object_id}") false
    ∷ route (codes "PostAccessURL") post
        (base_path ++ codes "objects/{object_id}/access/{access_id}") true
    ∷ route (codes "PostObject") post (base_path ++ codes "objects/{object_id}") true
    ∷ route (codes "GetServiceInfo") get (base_path ++ codes "service-info") false
    ∷ []

spec_example :
    open_api_spec_with_server_url (codes "serverURL:\n  default: a\nb") (codes " host ")
    ≡ codes "serverURL:\n  default: host\nb"
unfolding open_api_spec_with_server_url split_before split_blanks has_prefix trim_prefix trim_space
spec_example = refl
