-- ===== src/Tests/Creation.antt =====
-- Compound objects at the client that keeps its AVUs in a list.
use irods_go_drs.Base.{◌≡◌, refl, subst, true, none, some, List, [], ◌∷◌, All, arith}
use irods_go_drs.Base.Exec.{Result, ok, err}
use irods_go_drs.Base.Sort.{insert_sorted}
use irods_go_drs.Text.{Text, codes, ◌==◌, equal_fold, trim_space, is_space}
use irods_go_drs.Model.{Attribute}
use irods_go_drs.Irods.Interface.{Error}
use irods_go_drs.Irods.Frame.{Same}
use irods_go_drs.Irods.Stored.{avu_eq}
use irods_go_drs.Irods.Actions.{stat_entry}
use irods_go_drs.Irods.Deletion.{delete_matching}
use irods_go_drs.Irods.Replicas.{entry_with_all_replicas}
use irods_go_drs.Metadata.Attributes.{carries, has_drs_unit}
use irods_go_drs.Metadata.Lookup.{drs_id_from_metadata, has_drs_metadata_with_value}
use irods_go_drs.Registry.MimeType.{normalized_mime_type}
use irods_go_drs.Registry.EnsureChecksum.{
  first_checksum, register_checksum, ensure_data_object_checksum,
}
use irods_go_drs.Registry.Complete.{
  complete_mime_type, with_replicas, write_version, version_from_checksum, complete_version,
  ensure_data_object_drs_completeness,
}
use irods_go_drs.Registry.Upsert.{set_value, upsert_drs_metadata}
use irods_go_drs.Metadata.Render.{drs_avu}
use irods_go_drs.Compound.Tree.{Node, node, end, also, is_default_excluded_compound_entry}
use irods_go_drs.Compound.Preflight.{Ignores, is_left_out}
use irods_go_drs.Compound.Included.{compound_creation_data_nodes}
use irods_go_drs.Compound.Build.{build_compound_tree}
use irods_go_drs.Compound.Mirrors.{OnTree, Mirrors, build_compound_tree_lem}
use irods_go_drs.Compound.Create.{
  IgnoreLibrary, CompoundCreateResult, create_from_tree, read_compound_ignores, write_compound,
  create_node, create_nodes, mark_root, result_of,
}
use irods_go_drs.Compound.Create.Spares.{IsElsewhere, create_from_tree-Spares}
use irods_go_drs.Compound.Create.Marked.{IsMarked, write_compound-IsMarked}
use irods_go_drs.Tests.Memory.{
  Rows, memory, memory-IsLawful, memory-IsLocal, data_object, found_entry, rows_of, remove_row,
}
use irods_go_drs.Tests.Strip.{depth, depth-IsDepth}

abbrev rows : Rows
rows = (codes "/z/home/a.txt", drs_avu Attribute.id (codes "x")) ∷ []

build_compound_tree_lem_example :
    (r : Result Error Node) × (build_compound_tree memory rows 2 (codes "/z/home/a.txt") ≡ some r)
    × OnTree memory rows (Mirrors memory rows (codes "/z/home/a.txt")) r
unfolding ◌==◌
build_compound_tree_lem_example =
    build_compound_tree_lem memory rows depth depth-IsDepth 2 (codes "/z/home/a.txt") (omega arith)

abbrev root_path : Text
root_path = codes "/z/home"

abbrev ignored_path : Text
ignored_path = codes "/z/home/b.txt"

-- The rules leave out one data object.
abbrev rules : Ignores
rules = some (λ p is_dir. p == ignored_path)

abbrev library : IgnoreLibrary memory
library = record { read_ignore_file = λ p root s. ok rules; new_ignores = λ root. ok none }

abbrev tree : Node
tree =
    node (record (data_object root_path (codes "home")) { is_dir = true }) []
      (also
        (node (data_object (codes "/z/home/a.txt") (codes "a.txt"))
          (some (drs_avu Attribute.id (codes "x")) ∷ []) end)
        (also (node (data_object ignored_path (codes "b.txt")) [] end) end))

-- What is claimed of the rules that were read.
abbrev OnRules : Result Error Ignores → Type 0
OnRules (err e) = Unit
OnRules (ok found) =
    All (IsElsewhere memory memory-IsLocal ignored_path)
      (compound_creation_data_nodes root_path found tree)

elsewhere : OnRules (ok rules)
unfolding compound_creation_data_nodes is_left_out is_default_excluded_compound_entry equal_fold
    trim_space is_space ◌==◌ insert_sorted
elsewhere = ((refl, refl), tt)

-- The data object that the rules leave out keeps its AVUs.
create_from_tree-Spares_example :
    Same memory ignored_path rows (create_from_tree memory library root_path tree rows).1
unfolding ◌==◌ read_compound_ignores
create_from_tree-Spares_example =
    create_from_tree-Spares memory memory-IsLocal ignored_path root_path refl library tree rows
      (λ found e. subst OnRules e elsewhere)

abbrev nodes : List Node
nodes =
    node (data_object (codes "/z/home/a.txt") (codes "a.txt"))
      (some (drs_avu Attribute.id (codes "x")) ∷ []) end
    ∷ []

abbrev created : CompoundCreateResult
created = result_of memory root_path (codes "7") []

created_result : (write_compound memory root_path (codes "7") nodes rows).0 ≡ ok created
unfolding write_compound create_nodes create_node mark_root drs_id_from_metadata
    ensure_data_object_drs_completeness complete_mime_type complete_version version_from_checksum
    with_replicas write_version entry_with_all_replicas stat_entry has_drs_metadata_with_value
    ensure_data_object_checksum first_checksum register_checksum normalized_mime_type
    upsert_drs_metadata set_value delete_matching found_entry rows_of remove_row carries trim_space
    is_space ◌==◌ avu_eq has_drs_unit
created_result = refl

write_compound-IsMarked_example :
    IsMarked memory memory-IsLawful root_path
      (codes "7")
      (write_compound memory root_path (codes "7") nodes rows).1
unfolding trim_space is_space
write_compound-IsMarked_example =
    write_compound-IsMarked memory memory-IsLawful root_path (codes "7") nodes rows created refl
      created_result refl
