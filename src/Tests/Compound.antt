-- ===== src/Tests/Compound.antt =====
-- A collection with a data object, a control file and a left-out subcollection.
use irods_go_drs.Base.{◌≡◌, ◌↔◌, refl, true, false, none, some, [], ◌∷◌}
use irods_go_drs.Base.{any, arith}
use irods_go_drs.Text.{Text, codes, ◌==◌, trim_space, is_space, equal_fold, has_prefix}
use irods_go_drs.Model.{Entry, Attribute}
use irods_go_drs.Metadata.Render.{drs_avu}
use irods_go_drs.Compound.Tree.{
  Node, node, end, also, is_default_excluded_compound_entry, fail_if_descendant_compound,
}
use irods_go_drs.Compound.Preflight.{Ignores, is_left_out, build_preflight_node}
use irods_go_drs.Compound.Included.{collect_included_nodes}
use irods_go_drs.Compound.Breadth.{included, included_in, collect_included_nodes-perm}
use irods_go_drs.Compound.Descendants.{
  IsTree, descendants, is_marked, fail_if_descendant_compound_iff,
}
use irods_go_drs.Compound.Agreement.{
  data_paths_of, IsClosed, creation_paths, preview-creation, preview_misses_object,
}
use irods_go_drs.Tests.Memory.{data_object}
use mathlib.Core.List.{Perm}

abbrev collection : Text → Text → Entry
collection path name = record (data_object path name) { is_dir = true }

abbrev root_path : Text
root_path = codes "/z/r"

abbrev leaf : Text → Text → Node
leaf path name = node (data_object path name) [] end

-- The rules leave out what lies below `/z/r/tmp`, and that collection.
abbrev rules : Ignores
rules = some (λ p is_dir. has_prefix p (codes "/z/r/tmp"))

abbrev tree : Node
tree = node (collection root_path (codes "r")) [] (
    also (leaf (codes "/z/r/a") (codes "a")) (
      also (leaf (codes "/z/r/.drsignore") (codes ".drsignore")) (
        also
          (node (collection (codes "/z/r/tmp") (codes "tmp"))
            (some (drs_avu Attribute.compound_manifest (codes "true")) ∷ [])
            (also (leaf (codes "/z/r/tmp/b") (codes "b")) end))
          end)))

collect_included_nodes-perm_example :
    Perm (collect_included_nodes root_path rules tree) (included root_path rules tree)
collect_included_nodes-perm_example = collect_included_nodes-perm root_path rules tree

tree-IsTree : IsTree tree
tree-IsTree = (refl, tt, (refl, tt, (refl, (refl, tt, tt), tt)))

fail_if_descendant_compound_iff_example :
    (fail_if_descendant_compound tree ≡ none) ↔ (any is_marked (descendants tree) ≡ false)
fail_if_descendant_compound_iff_example = fail_if_descendant_compound_iff tree tree-IsTree

tree-IsClosed : IsClosed root_path rules tree
unfolding included_in included is_left_out is_default_excluded_compound_entry has_prefix ◌==◌
    equal_fold trim_space is_space
tree-IsClosed = (
  λ h. absurd (ground arith),
  ((λ h. refl, tt), ((λ h. refl, tt), ((λ h. refl, ((λ h. refl, tt), tt)), tt))),
)

preview-creation_example :
    Perm
      (data_paths_of (build_preflight_node root_path rules tree))
      (creation_paths root_path rules tree)
preview-creation_example = preview-creation root_path rules tree tree-IsClosed

-- The rules leave out the collection alone.
abbrev shallow : Ignores
shallow = some (λ p is_dir. is_dir)

abbrev kept_object : Entry
kept_object = data_object (codes "/z/r/tmp/b") (codes "b")

abbrev dropped : Entry
dropped = collection (codes "/z/r/tmp") (codes "tmp")

preview_misses_object_example :
    let child : Node = node dropped [] (also (node kept_object [] end) end) in
    (data_paths_of (build_preflight_node root_path shallow child) ≡ [])
    × Perm (creation_paths root_path shallow child) (codes "/z/r/tmp/b" ∷ [])
unfolding is_left_out is_default_excluded_compound_entry ◌==◌ equal_fold trim_space is_space
preview_misses_object_example =
    preview_misses_object root_path shallow dropped kept_object [] [] refl refl refl refl refl
