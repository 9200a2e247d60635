-- ===== src/Validator/Manifest.antt =====
-- A parsed manifest and its checks (drs-support/drs_manifest.go).
use irods_go_drs.Base.{ℕ, suc, List, [], ◌∷◌, is_nil, if◌then◌else◌}
use irods_go_drs.Text.{Text, codes, trim_space}
use irods_go_drs.Model.{DrsManifestEntry}

pub record DrsManifest : Type 0 where
  pub schema : Text
  pub type : Text
  pub description : Text
  pub contents : List DrsManifestEntry

pub data Issue : Type 0 where
  schema_is_empty : Issue
  entry_without_id : ℕ → Issue

abbrev pub default_drs_manifest_schema : Text
default_drs_manifest_schema = codes "irods-drs-manifest/v1"

-- The end of `ParseDrsManifest`.
unfoldable pub with_default_schema : DrsManifest → DrsManifest
with_default_schema m = record m {
  schema = (if is_nil m.schema then default_drs_manifest_schema else m.schema);
}

-- The loop of `Validate`, from an index on.
unfoldable pub issues_from : ℕ → List DrsManifestEntry → List Issue
issues_from i [] = []
issues_from i (entry ∷ entries) =
    let rest = issues_from (suc i) entries in
    if is_nil (trim_space entry.id) then entry_without_id i ∷ rest else rest

-- `DrsManifest.Validate`
unfoldable pub validate : DrsManifest → List Issue
unfolding issues_from
validate m =
    let issues = issues_from 0 m.contents in
    if is_nil (trim_space m.schema) then schema_is_empty ∷ issues else issues
