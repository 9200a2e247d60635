-- ===== src/Compound/Included.antt =====
-- `collectIncludedNodes` and `compoundCreationDataNodes`: the nodes that a creation works on, breadth
-- first. The loop takes fuel, and the number of nodes is enough.
use irods_go_drs.Base.{ℕ, zero, suc, ◌+◌, not, List, [], ◌∷◌, ◌++◌}
use irods_go_drs.Base.{filter, if◌then◌else◌}
use irods_go_drs.Base.Sort.{sort}
use irods_go_drs.Text.{Text, lt}
use irods_go_drs.Compound.Tree.{
  Node, node, Nodes, end, also, entry_of, children_of, to_list, is_default_excluded_compound_entry,
}
use irods_go_drs.Compound.Preflight.{Ignores, is_left_out}

-- The number of nodes of a tree.
unfoldable mutual
  pub size : Node → ℕ
  size (node entry metas children) = suc (size_of children)

  pub size_of : Nodes → ℕ
  size_of end = 0
  size_of (also n ns) = size n + size_of ns

module _ (root_path : Text) (ignores : Ignores) where
  -- The loop over the queue, which the source calls a stack.
  unfoldable pub collect_queue : ℕ → List Node → List Node
  collect_queue zero queue = []
  collect_queue (suc fuel) [] = []
  collect_queue (suc fuel) (n ∷ queue) =
      let skipped = collect_queue fuel queue in
      let rest = collect_queue fuel (queue ++ to_list (children_of n)) in
      if is_default_excluded_compound_entry (entry_of n)
      then skipped
      else if is_left_out root_path ignores (entry_of n)
      then rest
      else n ∷ rest

  unfoldable pub collect_included_nodes : Node → List Node
  unfolding collect_queue size
  collect_included_nodes root = collect_queue (suc (size root)) (root ∷ [])

  -- The data objects among them, by path.
  unfoldable pub compound_creation_data_nodes : Node → List Node
  unfolding collect_included_nodes sort
  compound_creation_data_nodes root =
      sort (λ a b. lt (entry_of a).path (entry_of b).path)
        (filter (λ n. not (entry_of n).is_dir) (collect_included_nodes root))
