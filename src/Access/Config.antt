-- ===== src/Access/Config.antt =====
-- The fields of `DrsConfig` (drs-support/drs-config.go) that the access methods and the HTTP handlers
-- read. A port is a number: one below zero is left out.
use irods_go_drs.Base.{ℕ, Bool, List, [], ◌∷◌, is_nil, if◌then◌else◌}
use irods_go_drs.Text.{Text, trim_space}

pub record ResourceAffinityEntry : Type 0 where
  pub host : Text
  pub resources : List Text

pub record DrsConfig : Type 0 where
  pub irods_access_method_supported : Bool
  pub file_access_method_supported : Bool
  pub https_access_method_supported : Bool
  pub s3_access_method_supported : Bool
  pub https_access_implementation : Text
  pub https_access_method_base_url : Text
  pub s3_access_method_base_url : Text
  pub local_access_root_path : Text
  pub https_resource_affinity : List ResourceAffinityEntry
  pub oidc_url : Text
  pub oidc_realm : Text
  pub public_url : Text
  pub https_access_use_ticket : Bool
  pub default_ticket_lifetime_minutes : ℕ
  pub default_ticket_use_limit : ℕ
  pub irods_access_host : Text
  pub irods_access_port : ℕ
  pub irods_host : Text
  pub irods_port : ℕ
  pub irods_zone : Text

-- `normalizeStringSlice`
unfoldable pub normalize_string_slice : List Text → List Text
normalize_string_slice [] = []
normalize_string_slice (value ∷ values) =
    let rest = normalize_string_slice values in
    if is_nil (trim_space value) then rest else trim_space value ∷ rest

-- `normalizeResourceAffinities`, which a configuration's entries pass when it is read.
unfoldable pub normalize_resource_affinities :
    List ResourceAffinityEntry → List ResourceAffinityEntry
normalize_resource_affinities [] = []
normalize_resource_affinities (entry ∷ entries) =
    let rest = normalize_resource_affinities entries in
    let host = trim_space entry.host in
    let resources = normalize_string_slice entry.resources in
    let normalized : ResourceAffinityEntry = record { host = host; resources = resources } in
    if is_nil host
    then (if is_nil resources then rest else normalized ∷ rest)
    else normalized ∷ rest
