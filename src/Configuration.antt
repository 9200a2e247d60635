-- ===== src/Configuration.antt =====
-- The values of a configuration (drs-support/drs-config.go): what `ReadDrsConfig` does with a decoded
-- configuration, and the iRODS account that is made of it. Reading files, the decoder and the client
-- library's tables of names are parameters. A number is not below zero here.
use irods_go_drs.Base.{ℕ, Bool, ◌||◌, not, Option, none, some, List, [], is_nil, eqb, if◌then◌else◌}
use irods_go_drs.Base.Exec.{Result, ok, err}
use irods_go_drs.Text.{Text, codes, ◌==◌, trim_space, to_lower}
use irods_go_drs.Access.Config.{ResourceAffinityEntry, normalize_resource_affinities}

-- The constants of the client library for a policy.
pub record Policies : Type 0 where
  pub request_tcp : Text
  pub request_ssl : Text
  pub dont_care : Text

unfoldable pub normalize_irods_negotiation_policy : Policies → Text → Text
normalize_irods_negotiation_policy policies policy =
    let p = trim_space policy in
    if p == policies.request_tcp || (p == policies.request_ssl || p == policies.dont_care)
    then p
    else policies.dont_care

-- `filepath.IsAbs`, `filepath.Join` and `os.ReadFile`.
pub record Files : Type 0 where
  pub is_abs : Text → Bool
  pub join_path : Text → Text → Text
  pub read_file : Text → Result Text Text

module _ (files : Files) where
  abbrev pub in_directory : Text → Text → Text
  in_directory path config_dir =
      if files.is_abs path || is_nil config_dir then path else files.join_path config_dir path

  abbrev pub trimmed_content : Result Text Text → Result Text Text
  trimmed_content (err e) = err e
  trimmed_content (ok content) = ok (trim_space content)

  -- A secret that is given, or that of its file.
  unfoldable pub resolve_secret : Text → Text → Text → Result Text Text
  resolve_secret secret secret_file config_dir =
      if not (is_nil secret)
      then ok secret
      else if is_nil secret_file
      then ok []
      else trimmed_content (files.read_file (in_directory secret_file config_dir))

  unfoldable pub resolve_config_path : Text → Text → Text
  resolve_config_path config_path config_dir =
      let path = trim_space config_path in if is_nil path then [] else in_directory path config_dir

-- The fields that are changed after they are decoded.
pub record DecodedConfig : Type 0 where
  pub irods_admin_password : Text
  pub irods_admin_password_file : Text
  pub oidc_client_secret : Text
  pub oidc_client_secret_file : Text
  pub irods_negotiation_policy : Text
  pub service_info_file_path : Text
  pub https_access_implementation : Text
  pub https_access_method_base_url : Text
  pub irods_access_host : Text
  pub local_access_root_path : Text
  pub s3_access_method_base_url : Text
  pub s3_resource_affinity : List ResourceAffinityEntry
  pub https_resource_affinity : List ResourceAffinityEntry
  pub oidc_skip_tls_verify : Bool
  pub oidc_insecure_skip_verify : Bool
  pub drs_listen_port : ℕ
  pub service_info_sample_interval_minutes : ℕ

module _ (files : Files) (policies : Policies) (config_dir : Text) where
  abbrev pub completed : DecodedConfig → Text → Text → DecodedConfig
  completed c password secret = record c {
    irods_admin_password = password;
    oidc_client_secret = secret;
    irods_negotiation_policy =
        normalize_irods_negotiation_policy policies c.irods_negotiation_policy;
    service_info_file_path = resolve_config_path files c.service_info_file_path config_dir;
    https_access_implementation = to_lower (trim_space c.https_access_implementation);
    https_access_method_base_url = trim_space c.https_access_method_base_url;
    irods_access_host = trim_space c.irods_access_host;
    local_access_root_path = resolve_config_path files c.local_access_root_path config_dir;
    s3_access_method_base_url = trim_space c.s3_access_method_base_url;
    s3_resource_affinity = normalize_resource_affinities c.s3_resource_affinity;
    https_resource_affinity = normalize_resource_affinities c.https_resource_affinity;
    oidc_skip_tls_verify = c.oidc_skip_tls_verify || c.oidc_insecure_skip_verify;
    oidc_insecure_skip_verify = c.oidc_skip_tls_verify || c.oidc_insecure_skip_verify;
    drs_listen_port = (if eqb c.drs_listen_port 0 then 8080 else c.drs_listen_port);
    service_info_sample_interval_minutes =
        (if eqb c.service_info_sample_interval_minutes 0
          then 5
          else c.service_info_sample_interval_minutes);
  }

  abbrev pub with_secrets :
      DecodedConfig → Result Text Text → Result Text Text → Result Text DecodedConfig
  with_secrets c (err e) secret = err e
  with_secrets c (ok password) (err e) = err e
  with_secrets c (ok password) (ok secret) = ok (completed c password secret)

  -- The part of `ReadDrsConfig` behind the decoder.
  unfoldable pub complete_config : DecodedConfig → Result Text DecodedConfig
  complete_config c =
      with_secrets c
        (resolve_secret files c.irods_admin_password c.irods_admin_password_file config_dir)
        (resolve_secret files c.oidc_client_secret c.oidc_client_secret_file config_dir)

-- `IrodsSSLConfig`, and `types.IRODSSSLConfig` where the check of the server is a value of the library.
pub record IrodsSslConfig (Verify : Type 0) : Type 0 where
  pub ca_certificate_file : Text
  pub ca_certificate_path : Text
  pub encryption_key_size : ℕ
  pub encryption_algorithm : Text
  pub encryption_salt_size : ℕ
  pub encryption_num_hash_rounds : ℕ
  pub verify_server : Verify
  pub dh_params_file : Text
  pub server_name : Text

abbrev pub text_or : Text → Text → Text
text_or default value = if is_nil (trim_space value) then default else trim_space value

abbrev pub number_or : ℕ → ℕ → ℕ
number_or default value = if eqb value 0 then default else value

-- `GetSSLVerifyServer`; a name that it does not know counts as `hostname`, which it knows.
abbrev pub verify_or : {Verify : Type 0} → Verify → Option Verify → Verify
verify_or default none = default
verify_or default (some v) = v

unfoldable pub to_irods_ssl_config :
    {Verify : Type 0}
    → (Text → Option Verify)
    → Verify
    → IrodsSslConfig Text
    → IrodsSslConfig Verify
to_irods_ssl_config verify by_hostname c = record {
  ca_certificate_file = trim_space c.ca_certificate_file;
  ca_certificate_path = trim_space c.ca_certificate_path;
  encryption_key_size = number_or 32 c.encryption_key_size;
  encryption_algorithm = text_or (codes "AES-256-CBC") c.encryption_algorithm;
  encryption_salt_size = number_or 8 c.encryption_salt_size;
  encryption_num_hash_rounds = number_or 16 c.encryption_num_hash_rounds;
  verify_server = verify_or by_hostname (verify (text_or (codes "hostname") c.verify_server));
  dh_params_file = trim_space c.dh_params_file;
  server_name = trim_space c.server_name;
}

-- The name that `AdminAuthScheme` looks up.
unfoldable pub admin_auth_scheme_name : Text → Text → Text
admin_auth_scheme_name admin_login_type auth_scheme =
    if is_nil (trim_space admin_login_type)
    then trim_space auth_scheme
    else trim_space admin_login_type
