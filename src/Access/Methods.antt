-- ===== src/Access/Methods.antt =====
-- The access methods themselves. The URL package of Go is a parameter; what the search for the bucket
-- of a path has found is an argument.
use irods_go_drs.Base.{
  ℕ, Bool, true, false, ◌&&◌, ◌||◌, not, Option, none, some, List, [], ◌∷◌, ◌++◌,
}
use irods_go_drs.Base.{is_nil, if◌then◌else◌}
use irods_go_drs.Text.{Text, codes, ◌==◌, trim_space, trim_prefix}
use irods_go_drs.Text.FilePath.{clean, join}
use irods_go_drs.Model.{InternalDrsObject, Account}
use irods_go_drs.Access.Config.{DrsConfig, ResourceAffinityEntry}
use irods_go_drs.Access.Ids.{
  effective_https_access_provider, irods_go_rest, irods_https_api, build_https_default_access_id,
  build_https_affinity_access_id,
}
use irods_go_drs.Access.Resources.{
  object_replica_resource_names, primary_replica_resource_name, build_irods_cloud_name,
  build_bearer_auth_issuers,
}
use irods_go_drs.Access.Affinity.{
  normalized_resource_affinity_for_lookup, host_for_resource_affinity,
}
use irods_go_drs.Access.Buckets.{resolve_s3_bucket_access_url, resolve_s3_access_id}

pub record DrsAccessMethod : Type 0 where
  pub type : Text
  pub url : Text
  pub access_id : Text
  pub cloud : Text
  pub region : Text
  pub available : Bool
  pub supported_auth_types : List Text
  pub bearer_auth_issuers : List Text

-- `url.URL`, as far as `ResolveHTTPSAccessBaseURL` looks into one.
pub record Url : Type 0 where
  pub scheme : Text
  pub user : Text
  pub host : Text
  pub path : Text
  pub raw_query : Text
  pub fragment : Text

-- `url.Parse`, `URL.String` and `URL.ResolveReference`
pub record UrlPackage : Type 0 where
  pub parse : Text → Option Url
  pub to_text : Url → Text
  pub resolve_reference : Url → Url → Url

-- `s3BucketResolution`
pub record S3BucketResolution : Type 0 where
  pub bucket_name : Text
  pub bucket_collection_path : Text
  pub relative_object_path : Text
  pub candidate_bucket_count : ℕ

module _ (urls : UrlPackage) where
  -- A host with a path, a query or a fragment stands for itself.
  unfoldable pub merge_host : Url → Url → Text → Text
  merge_host configured host preferred =
      if is_nil host.path && (is_nil host.raw_query && is_nil host.fragment)
      then urls.to_text (record configured {
        scheme = (if is_nil host.scheme then configured.scheme else host.scheme);
        host = host.host;
        user = host.user;
      })
      else preferred

  unfoldable pub merge_parsed : Text → Text → Option Url → Option Url → Text
  merge_parsed configured preferred (some c) (some h) =
      if is_nil h.host
      then configured
      else if not (is_nil c.scheme) && not (is_nil c.host)
      then merge_host c h preferred
      else urls.to_text (urls.resolve_reference h c)
  merge_parsed configured preferred _ _ = configured

  -- `ResolveHTTPSAccessBaseURL`
  unfoldable pub resolve_https_access_base_url : Text → Text → Text
  resolve_https_access_base_url configured_base_url preferred_host =
      let configured = trim_space configured_base_url in
      let preferred = trim_space preferred_host in
      if is_nil preferred
      then configured
      else merge_parsed configured preferred (urls.parse configured) (urls.parse preferred)

  module _ (cfg : DrsConfig) (object : InternalDrsObject) where
    abbrev auth_types : List Text
    auth_types = codes "BasicAuth" ∷ codes "BearerAuth" ∷ []

    unfoldable pub https_method : Text → Text → DrsAccessMethod
    https_method access_id region = record {
      type = codes "https";
      url = [];
      access_id = access_id;
      cloud = build_irods_cloud_name object;
      region = region;
      available = false;
      supported_auth_types = auth_types;
      bearer_auth_issuers = build_bearer_auth_issuers cfg;
    }

    -- The loop over the resources: the dedicated methods and the fallback ones.
    unfoldable pub split_methods :
        Text → List ResourceAffinityEntry → List Text → List DrsAccessMethod × List DrsAccessMethod
    split_methods provider affinities [] = ([], [])
    split_methods provider affinities (resource ∷ resources) =
        let (dedicated, fallback) = split_methods provider affinities resources in
        let (host, matched) = host_for_resource_affinity affinities resource in
        let base = resolve_https_access_base_url cfg.https_access_method_base_url host in
        let m = https_method (build_https_affinity_access_id provider resource) resource in
        if is_nil (trim_space base)
        then (dedicated, fallback)
        else if matched
        then (m ∷ dedicated, fallback)
        else (dedicated, m ∷ fallback)

    unfoldable pub build_provider_https_access_methods : Text → List DrsAccessMethod
    build_provider_https_access_methods provider =
        let resources = object_replica_resource_names object in
        let affinities = normalized_resource_affinity_for_lookup cfg.https_resource_affinity in
        let region = primary_replica_resource_name object in
        let (dedicated, fallback) = split_methods provider affinities resources in
        if is_nil resources
        then []
        else if is_nil affinities
        then (if is_nil region
            then []
            else https_method (build_https_default_access_id provider) region ∷ [])
        else dedicated ++ fallback

    unfoldable pub build_https_access_methods : List DrsAccessMethod
    build_https_access_methods =
        let provider = effective_https_access_provider cfg.https_access_implementation in
        if not cfg.https_access_method_supported
        then []
        else if is_nil (trim_space cfg.https_access_method_base_url)
            || is_nil (trim_space object.absolute_path)
        then []
        else if provider == irods_go_rest || provider == irods_https_api
        then build_provider_https_access_methods provider
        else []

    unfoldable pub build_irods_access_methods : List DrsAccessMethod
    build_irods_access_methods =
        if not cfg.irods_access_method_supported || is_nil (trim_space object.absolute_path)
        then []
        else record {
          type = codes "irods";
          url = [];
          access_id = codes "irods";
          cloud = build_irods_cloud_name object;
          region = primary_replica_resource_name object;
          available = false;
          supported_auth_types = [];
          bearer_auth_issuers = [];
        }
          ∷ []

    -- `buildFileAccessMethods` with `buildLocalAccessMethod`
    unfoldable pub build_file_access_methods : List DrsAccessMethod
    build_file_access_methods =
        let root = trim_space cfg.local_access_root_path in
        if not cfg.file_access_method_supported
        then []
        else if is_nil root || is_nil (trim_space object.absolute_path)
        then []
        else record {
          type = codes "local";
          url =
              codes "local://" ++ join root (trim_prefix (clean object.absolute_path) (codes "/"));
          access_id = [];
          cloud = [];
          region = [];
          available = true;
          supported_auth_types = [];
          bearer_auth_issuers = [];
        }
          ∷ []

    unfoldable pub s3_method : Text → Text → Text → DrsAccessMethod
    s3_method url access_id region = record {
      type = codes "s3";
      url = url;
      access_id = access_id;
      cloud = build_irods_cloud_name object;
      region = region;
      available = true;
      supported_auth_types = [];
      bearer_auth_issuers = [];
    }

    -- The loop over the resources, blank ones passed over.
    unfoldable pub s3_methods_for : Text → Text → List Text → List DrsAccessMethod
    s3_methods_for url access_id [] = []
    s3_methods_for url access_id (resource ∷ resources) =
        let rest = s3_methods_for url access_id resources in
        let r = trim_space resource in if is_nil r then rest else s3_method url access_id r ∷ rest

    unfoldable pub s3_resources : List Text → List Text
    s3_resources [] =
        if is_nil (primary_replica_resource_name object)
        then []
        else primary_replica_resource_name object ∷ []
    s3_resources (r ∷ rs) = r ∷ rs

    -- `buildS3AccessMethods`; `none` is a missing filesystem or a bucket that was not found.
    unfoldable pub build_s3_access_methods :
        Option Account → Option S3BucketResolution → List DrsAccessMethod
    build_s3_access_methods account none = []
    build_s3_access_methods account (some resolution) =
        let base = trim_space cfg.s3_access_method_base_url in
        let url =
          resolve_s3_bucket_access_url base resolution.bucket_name
            resolution.relative_object_path in
        if not cfg.s3_access_method_supported
        then []
        else if is_nil base || is_nil (trim_space object.absolute_path)
        then []
        else if is_nil url
        then []
        else s3_methods_for url (resolve_s3_access_id account object.absolute_path)
            (s3_resources (object_replica_resource_names object))

    -- `BuildAccessMethodsWithFilesystem`
    unfoldable pub build_access_methods :
        Option Account → Option S3BucketResolution → List DrsAccessMethod
    build_access_methods account resolution =
        build_https_access_methods
        ++ (build_irods_access_methods
            ++ (build_file_access_methods ++ build_s3_access_methods account resolution))
