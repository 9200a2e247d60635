-- ===== src/Http/Urls.antt =====
-- The public URLs of the service (internal/api_objects.go). An error is nothing here: all of them give
-- the same answer.
use irods_go_drs.Base.{
  Bool, ◌&&◌, ◌||◌, not, Option, none, some, List, [], ◌∷◌, ◌++◌, is_nil, if◌then◌else◌,
}
use irods_go_drs.Text.{Text, codes, ◌==◌, trim_space, trim_prefix, trim_right_slashes, to_lower}
use irods_go_drs.Access.Config.{DrsConfig}
use irods_go_drs.Access.Methods.{Url, UrlPackage}

-- `neturl.PathEscape` and `neturl.QueryEscape`, beside the rest of the package.
pub record UrlLibrary : Type 0 where
  pub urls : UrlPackage
  -- Whether a parsed URL has user info, which may be empty.
  pub has_user : Url → Bool
  pub path_escape : Text → Text
  pub query_escape : Text → Text

module _ (U : UrlLibrary) where
  abbrev pub is_http : Text → Bool
  is_http scheme = scheme == codes "http" || scheme == codes "https"

  abbrev pub is_bare_path : Text → Bool
  is_bare_path path = is_nil path || path == codes "/"

  -- The parsed URL has to be an HTTP address and nothing but that.
  abbrev pub base_of : Option Url → Option Url
  base_of none = none
  base_of (some u) =
      let scheme = to_lower (trim_space u.scheme) in
      if is_http scheme
        && (not (is_nil (trim_space u.host))
            && (not (U.has_user u)
                && (is_nil (trim_space u.raw_query)
                    && (is_nil (trim_space u.fragment) && is_bare_path (trim_space u.path)))))
      then some (record {
        scheme = scheme;
        user = [];
        host = trim_space u.host;
        path = [];
        raw_query = [];
        fragment = [];
      })
      else none

  unfoldable pub public_base_url_from_config : DrsConfig → Option Url
  public_base_url_from_config cfg =
      let raw = trim_space cfg.public_url in if is_nil raw then none else base_of (U.urls.parse raw)

  abbrev pub self_uri_at : Text → Option Url → Option Text
  self_uri_at id none = none
  self_uri_at id (some base) = some (codes "drs://" ++ (base.host ++ (codes "/" ++ id)))

  unfoldable pub build_self_uri : DrsConfig → Text → Option Text
  build_self_uri cfg object_id =
      let id = trim_space object_id in
      if is_nil id then none else self_uri_at id (public_base_url_from_config cfg)

  abbrev pub resolve_target : Option Url → Option Url → Option Text
  resolve_target (some base) (some target) =
      if is_nil target.scheme && is_nil target.host
      then some (U.urls.to_text (U.urls.resolve_reference base target))
      else none
  resolve_target _ _ = none

  unfoldable pub build_public_absolute_url : DrsConfig → Text → Option Text
  build_public_absolute_url cfg target_path =
      let target = codes "/" ++ trim_prefix (trim_space target_path) (codes "/") in
      if trim_space target == codes "/"
      then none
      else resolve_target (public_base_url_from_config cfg) (U.urls.parse target)

  -- The address of the manifest of a compound object.
  unfoldable pub compound_manifest_url : DrsConfig → Text → Option Text
  compound_manifest_url cfg object_id =
      build_public_absolute_url cfg
        (codes "/ga4gh/drs/v1/ext/compound/" ++ U.path_escape (trim_space object_id))

  abbrev pub drs_uris : Option Text → Option (List Text)
  drs_uris none = none
  drs_uris (some uri) = some (uri ∷ [])

  unfoldable pub build_contents_drs_uris : DrsConfig → Text → Option (List Text)
  build_contents_drs_uris cfg object_id =
      let id = trim_space object_id in
      if is_nil id then some [] else drs_uris (build_self_uri cfg id)

  unfoldable pub bearer_auth_issuer_from_config : DrsConfig → Text
  bearer_auth_issuer_from_config cfg =
      let base = trim_right_slashes (trim_space cfg.oidc_url) in
      let realm = trim_space cfg.oidc_realm in
      if is_nil base
      then []
      else if is_nil realm
      then base
      else base ++ (codes "/realms/" ++ U.path_escape realm)
