-- ===== src/Compound/Tree.antt =====
-- `compoundTreeNode`: an entry with its AVUs and its children, and the tests on a tree. The trees that
-- the source builds hold no nil node and no nil entry.
use irods_go_drs.Base.{Bool, Option, none, some, List, [], ◌∷◌}
use irods_go_drs.Base.{if◌then◌else◌}
use irods_go_drs.Text.{Text, codes, equal_fold, trim_space}
use irods_go_drs.Model.{Avu, Entry}
use irods_go_drs.Metadata.Lookup.{collection_has_compound_marker}

mutual
  pub data Node : Type 0 where
    node : Entry → List (Option Avu) → Nodes → Node

  pub data Nodes : Type 0 where
    end : Nodes
    also : Node → Nodes → Nodes

abbrev pub entry_of : Node → Entry
entry_of (node e metas children) = e

abbrev pub metadata_of : Node → List (Option Avu)
metadata_of (node e metas children) = metas

abbrev pub children_of : Node → Nodes
children_of (node e metas children) = children

abbrev pub to_list : Nodes → List Node
to_list end = []
to_list (also n ns) = n ∷ to_list ns

abbrev pub drs_ignore_file_name : Text
drs_ignore_file_name = codes ".drsignore"

-- `isDefaultExcludedCompoundEntry`
unfoldable pub is_default_excluded_compound_entry : Entry → Bool
is_default_excluded_compound_entry entry = equal_fold (trim_space entry.name) drs_ignore_file_name

-- `failIfDescendantCompound`: the path of the first collection below that has a compound marker. A
-- data object's children are not looked at.
unfoldable mutual
  pub fail_if_descendant_compound : Node → Option Text
  fail_if_descendant_compound (node e metas children) = fail_in children

  pub fail_in : Nodes → Option Text
  fail_in end = none
  fail_in (also child rest) =
      let below = fail_if_descendant_compound child in
      let others = fail_in rest in
      if (entry_of child).is_dir
      then (if collection_has_compound_marker (metadata_of child)
          then some (entry_of child).path
          else elim below [ some path ↦ some path | none ↦ others ])
      else others
