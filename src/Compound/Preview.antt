-- ===== src/Compound/Preview.antt =====
-- `BuildCompoundManifestPreflight` of drs-support/compound_create.go: the preview of a compound object. It
-- reads from the client and changes nothing.
use irods_go_drs.Base.{ℕ, Bool, Option, none, some, List, [], ◌∷◌, is_nil, if◌then◌else◌}
use irods_go_drs.Base.Exec.{Result, ok, err}
use irods_go_drs.Base.Sort.{sort}
use irods_go_drs.Text.{Text, codes, trim_space, lt}
use irods_go_drs.Model.{Account}
use irods_go_drs.Irods.Interface.{Client, Error, path_required, descendant_compound, excluded_root}
use irods_go_drs.Irods.Actions.{stat_entry}
use irods_go_drs.Metadata.Lookup.{drs_id_from_metadata}
use irods_go_drs.Registry.Create.{is_root_or_empty}
use irods_go_drs.Compound.Tree.{Node, metadata_of, fail_if_descendant_compound}
use irods_go_drs.Compound.Preflight.{
  Ignores, ManifestNode, build_preflight_node, collect_excluded_paths,
}
use irods_go_drs.Compound.Build.{Built, build_compound_tree}
use irods_go_drs.Compound.Create.{
  IgnoreLibrary, has_compound_ignore_file, read_compound_ignores, check_root, then_build,
}

pub record CompoundManifestPreflight : Type 0 where
  pub host : Text
  pub port : ℕ
  pub zone : Text
  pub root_path : Text
  pub has_ignore_file : Bool
  pub ignore_file : Text
  pub root_drs_id : Text
  pub warnings : List Text
  pub excluded_paths : List Text
  pub manifest : ManifestNode

abbrev pub root_warnings : Text → List Text
root_warnings drs_id =
    if is_nil drs_id
    then codes "root collection has no DRS id yet; one would be assigned during creation" ∷ []
    else []

-- The paths that the rules leave out, sorted; none where there are no rules.
unfoldable pub excluded : Text → Ignores → Node → List Text
excluded root none tree = []
excluded root (some test) tree = sort lt (collect_excluded_paths root (some test) tree)

abbrev pub account_host : Option Account → Text
account_host none = []
account_host (some a) = trim_space a.host

abbrev pub account_port : Option Account → ℕ
account_port none = 0
account_port (some a) = a.port

abbrev pub account_zone : Option Account → Text
account_zone none = []
account_zone (some a) = trim_space a.client_zone

module _ (C : Client) (lib : IgnoreLibrary C) (s : C.State) where
  abbrev pub preflight_of :
      Text
      → Node
      → Bool × Text
      → Ignores
      → Option ManifestNode
      → Result Error CompoundManifestPreflight
  preflight_of root tree ignore_file rules none = err (excluded_root root)
  preflight_of root tree ignore_file rules (some manifest) = ok (record {
    host = account_host (C.account s);
    port = account_port (C.account s);
    zone = account_zone (C.account s);
    root_path = root;
    has_ignore_file = ignore_file.0;
    ignore_file = ignore_file.1;
    root_drs_id = drs_id_from_metadata (metadata_of tree);
    warnings = root_warnings (drs_id_from_metadata (metadata_of tree));
    excluded_paths = excluded root rules tree;
    manifest = manifest;
  })

  abbrev pub with_rules :
      Text
      → Node
      → Result Error (Bool × Text)
      → Result Error Ignores
      → Result Error CompoundManifestPreflight
  with_rules root tree (err e) rules = err e
  with_rules root tree (ok ignore_file) (err e) = err e
  with_rules root tree (ok ignore_file) (ok rules) =
      preflight_of root tree ignore_file rules (build_preflight_node root rules tree)

  -- What follows the building of the tree.
  unfoldable pub preflight_of_tree : Text → Node → Result Error CompoundManifestPreflight
  preflight_of_tree root tree = elim (fail_if_descendant_compound tree) [
    | some path ↦ err (descendant_compound path)
    | none ↦
        with_rules root tree (has_compound_ignore_file C root s)
          (read_compound_ignores C lib root s)
  ]

  abbrev pub then_preflight : Text → Built Node → Built CompoundManifestPreflight
  then_preflight root none = none
  then_preflight root (some (err e)) = some (err e)
  then_preflight root (some (ok tree)) = some (preflight_of_tree root tree)

  unfoldable pub build_compound_manifest_preflight : ℕ → Text → Built CompoundManifestPreflight
  build_compound_manifest_preflight fuel collection_path =
      let root = C.correct_path (trim_space collection_path) in
      if is_root_or_empty root
      then some (err path_required)
      else then_preflight root (
          then_build C (check_root C root (stat_entry C root s))
            (build_compound_tree C s fuel root))
