-- ===== src/Compound/Preflight.antt =====
-- `buildPreflightNode` and `collectExcludedPaths`: the manifest that a collection would have, and the
-- paths that its ignore rules leave out. The rules are those of the ignore library: `none` where there
-- are none, else a test on a path and whether it is a collection.
use irods_go_drs.Base.{Bool, false, ◌&&◌, ◌||◌, not, Option, none, some, List, [], ◌∷◌, ◌++◌}
use irods_go_drs.Base.{is_nil, if◌then◌else◌}
use irods_go_drs.Text.{Text, codes, ◌==◌, trim_space}
use irods_go_drs.Model.{Avu, Entry}
use irods_go_drs.Metadata.Lookup.{
  alias_from_metadata, description_from_metadata, drs_id_from_metadata, non_drs_metadata_from_metas,
}
use irods_go_drs.Compound.Tree.{Node, node, Nodes, end, also, is_default_excluded_compound_entry}
use irods_go_drs.Compound.Paths.{relative_path_from_root}

-- `CompoundManifestNode` without its children.
pub record NodeInfo : Type 0 where
  pub path : Text
  pub relative_path : Text
  pub node_type : Text
  pub drs_id : Text
  pub alias : Text
  pub description : Text
  pub will_assign_drs_id : Bool
  pub metadata : List Avu

mutual
  pub data ManifestNode : Type 0 where
    manifest_node : NodeInfo → ManifestNodes → ManifestNode

  pub data ManifestNodes : Type 0 where
    no_more : ManifestNodes
    and_also : ManifestNode → ManifestNodes → ManifestNodes

-- `compoundNodeType`
unfoldable pub compound_node_type : Entry → Text
compound_node_type entry = if entry.is_dir then codes "collection" else codes "data_object"

-- The alias or description of a collection that has none: its relative path, or a dot for the root.
unfoldable pub skeleton_text : Bool → Text → Text → Text
skeleton_text is_dir relative value =
    if is_dir && is_nil (trim_space value)
    then (if is_nil relative then codes "." else relative)
    else value

abbrev pub Ignores : Type 0
Ignores = Option (Text → Bool → Bool)

abbrev pub is_ignored : Ignores → Entry → Bool
is_ignored none entry = false
is_ignored (some test) entry = test entry.path entry.is_dir

module _ (root_path : Text) (ignores : Ignores) where
  unfoldable pub node_info : Entry → List (Option Avu) → NodeInfo
  node_info entry metas =
      let relative = relative_path_from_root root_path entry.path in
      let drs_id = drs_id_from_metadata metas in
      record {
        path = entry.path;
        relative_path = relative;
        node_type = compound_node_type entry;
        drs_id = drs_id;
        alias = trim_space (skeleton_text entry.is_dir relative (alias_from_metadata metas));
        description =
            trim_space (skeleton_text entry.is_dir relative (description_from_metadata metas));
        will_assign_drs_id = not entry.is_dir && is_nil drs_id;
        metadata = non_drs_metadata_from_metas metas;
      }

  -- The rules leave an entry out; they never leave out the root.
  unfoldable pub is_left_out : Entry → Bool
  is_left_out entry = not (entry.path == root_path) && is_ignored ignores entry

  unfoldable mutual
    pub build_preflight_node : Node → Option ManifestNode
    build_preflight_node (node entry metas children) =
        let built = some (manifest_node (node_info entry metas) (build_children children)) in
        if is_default_excluded_compound_entry entry || is_left_out entry then none else built

    pub build_children : Nodes → ManifestNodes
    build_children end = no_more
    build_children (also child rest) =
        let others = build_children rest in
        elim (build_preflight_node child) [ none ↦ others | some m ↦ and_also m others ]

  unfoldable mutual
    pub collect_excluded_paths : Node → List Text
    collect_excluded_paths (node entry metas children) =
        let below = collect_in children in
        if is_default_excluded_compound_entry entry
        then []
        else if is_left_out entry
        then entry.path ∷ below
        else below

    pub collect_in : Nodes → List Text
    collect_in end = []
    collect_in (also child rest) = collect_excluded_paths child ++ collect_in rest
