-- ===== src/Http/Response.antt =====
-- `drsObjectFromInternal` (internal/api_objects.go, internal/model_drs_object.go and the models beside it):
-- a DRS object as its caller sees it.
use irods_go_drs.Base.{
  ℕ, Bool, false, ◌&&◌, ◌||◌, Option, none, some, List, [], ◌∷◌, ◌++◌, is_nil, any, if◌then◌else◌,
}
use irods_go_drs.Text.{Text, codes, equal_fold, trim_space}
use irods_go_drs.Model.{InternalChecksum, InternalDrsObject, DrsManifestEntry}
use irods_go_drs.Access.Config.{DrsConfig}
use irods_go_drs.Access.Methods.{DrsAccessMethod}
use irods_go_drs.Http.Urls.{
  UrlLibrary, build_self_uri, build_contents_drs_uris, compound_manifest_url,
  bearer_auth_issuer_from_config,
}

-- `AllOfAccessMethodAuthorizations`
pub record MethodAuthorizations : Type 0 where
  pub supported_types : List Text
  pub bearer_auth_issuers : List Text

-- `AccessMethod`; its address is a text, which may be missing.
pub record AccessMethod : Type 0 where
  pub type : Text
  pub access_id : Text
  pub access_url : Option Text
  pub cloud : Text
  pub region : Text
  pub available : Bool
  pub authorizations : Option MethodAuthorizations

pub record ContentsObject : Type 0 where
  pub name : Text
  pub id : Text
  pub drs_uri : List Text

pub record DrsObject : Type 0 where
  pub id : Text
  pub name : Text
  pub self_uri : Text
  pub size : ℕ
  pub created_time : ℕ
  pub updated_time : ℕ
  pub version : Text
  pub mime_type : Text
  pub checksums : List InternalChecksum
  pub access_methods : List AccessMethod
  pub contents : List ContentsObject
  pub description : Text
  pub aliases : List Text

abbrev pub method_authorizations : DrsAccessMethod → Option MethodAuthorizations
method_authorizations m =
    if is_nil m.supported_auth_types && is_nil m.bearer_auth_issuers
    then none
    else some (record {
      supported_types = m.supported_auth_types;
      bearer_auth_issuers = m.bearer_auth_issuers;
    })

unfoldable pub access_methods_from_internal : List DrsAccessMethod → List AccessMethod
access_methods_from_internal [] = []
access_methods_from_internal (m ∷ methods) =
    let first : AccessMethod = record {
      type = m.type;
      access_id = m.access_id;
      access_url = (if is_nil m.url then none else some m.url);
      cloud = m.cloud;
      region = m.region;
      available = m.available;
      authorizations = method_authorizations m;
    } in
    first ∷ access_methods_from_internal methods

-- The address of the object in iRODS joins the aliases unless it is there, in whatever case.
unfoldable pub with_alias : List Text → Text → List Text
with_alias aliases uri =
    if is_nil uri || any (λ alias. equal_fold (trim_space alias) (trim_space uri)) aliases
    then aliases
    else aliases ++ (uri ∷ [])

abbrev pub checksums_of : Option InternalChecksum → List InternalChecksum
checksums_of none = []
checksums_of (some c) = if is_nil c.value then [] else c ∷ []

module _ (U : UrlLibrary) (cfg : DrsConfig) where
  abbrev pub issuers : List Text
  issuers =
      let issuer = bearer_auth_issuer_from_config U cfg in if is_nil issuer then [] else issuer ∷ []

  abbrev pub manifest_method : InternalDrsObject → Option Text → Option AccessMethod
  manifest_method object none = none
  manifest_method object (some url) = some (record {
    type = codes "https";
    access_id = [];
    access_url = some url;
    cloud = codes "irods:" ++ trim_space object.irods_zone;
    region = trim_space object.resource_name;
    available = false;
    authorizations = some (record {
      supported_types = codes "BasicAuth" ∷ codes "BearerAuth" ∷ [];
      bearer_auth_issuers = issuers;
    });
  })

  -- `buildCompoundManifestAccessMethod`
  unfoldable pub build_compound_manifest_access_method : InternalDrsObject → Option AccessMethod
  build_compound_manifest_access_method object =
      manifest_method object (compound_manifest_url U cfg object.id)

  abbrev pub single_method : Option AccessMethod → Option (List AccessMethod)
  single_method none = none
  single_method (some m) = some (m ∷ [])

  -- A compound object has the address of its manifest, another one its access methods.
  unfoldable pub methods_of : List DrsAccessMethod → InternalDrsObject → Option (List AccessMethod)
  methods_of methods object =
      if object.is_manifest
      then single_method (build_compound_manifest_access_method object)
      else some (access_methods_from_internal methods)

  abbrev pub add_content :
      DrsManifestEntry
      → Option (List Text)
      → Option (List ContentsObject)
      → Option (List ContentsObject)
  add_content entry (some uris) (some rest) =
      some (record { name = entry.name; id = entry.id; drs_uri = uris } ∷ rest)
  add_content entry _ _ = none

  -- The loop over the contents.
  unfoldable pub contents_of : List DrsManifestEntry → Option (List ContentsObject)
  contents_of [] = some []
  contents_of (entry ∷ entries) =
      add_content entry (build_contents_drs_uris U cfg entry.id) (contents_of entries)

  abbrev pub response_of :
      InternalDrsObject
      → Text
      → Option (List AccessMethod)
      → Option Text
      → Option (List ContentsObject)
      → Option DrsObject
  response_of object alias (some methods) (some self_uri) (some contents) = some (record {
    id = object.id;
    name = object.absolute_path;
    self_uri = self_uri;
    size = object.size;
    created_time = object.created_time;
    updated_time = object.updated_time;
    version = object.version;
    mime_type = object.mime_type;
    checksums = checksums_of object.checksum;
    access_methods = methods;
    contents = contents;
    description = object.description;
    aliases = with_alias object.aliases alias;
  })
  response_of object alias _ _ _ = none

  -- The response, for the access methods of the object and the address that
  -- `buildAnonymousIRODSAliasURI` gives, blank where there is none; nothing is an error.
  unfoldable pub drs_object_from_internal :
      List DrsAccessMethod → Text → InternalDrsObject → Bool → Option DrsObject
  drs_object_from_internal methods alias object expand =
      response_of object alias (methods_of methods object) (build_self_uri U cfg object.id)
        (if expand then contents_of object.contents else some [])
