-- ===== src/Compound/Paths.antt =====
-- `relativePathFromRoot`, `ancestorCollectionPaths` and `parentRuntimeNodePath`.
use irods_go_drs.Base.{◌||◌, List, [], ◌∷◌, ◌≡◌, refl, is_nil, if◌then◌else◌}
use irods_go_drs.Text.{Text, codes, ◌==◌, trim_prefix, trim_space, segments}
use irods_go_drs.Text.FilePath.{clean, dir, join}

unfoldable pub relative_path_from_root : Text → Text → Text
relative_path_from_root root_path target_path =
    let root = clean root_path in
    let target = clean target_path in
    if root == target then [] else trim_prefix (trim_prefix target root) (codes "/")

-- The loop over all segments but the last, from the path so far.
unfoldable pub ancestors_along : Text → List Text → List Text
ancestors_along current [] = []
ancestors_along current (last ∷ []) = []
ancestors_along current (s ∷ t ∷ rest) =
    let next = clean (join current s) in
    let skipped = ancestors_along current (t ∷ rest) in
    let taken = next ∷ ancestors_along next (t ∷ rest) in
    if is_nil (trim_space s) then skipped else taken

unfoldable pub ancestor_collection_paths : Text → Text → List Text
unfolding ancestors_along relative_path_from_root
ancestor_collection_paths root_path target_path =
    let root = clean root_path in
    let target = clean target_path in
    let relative = relative_path_from_root root target in
    if root == target || is_nil relative then [] else ancestors_along root (segments relative)

unfoldable pub parent_runtime_node_path : Text → Text → Text
parent_runtime_node_path root_path entry_path =
    let root = clean root_path in
    let entry = clean entry_path in
    let parent = dir entry in
    if entry == root
    then root
    else if parent == codes "." || is_nil parent
    then root
    else clean parent

ancestors_example :
    (ancestor_collection_paths (codes "/z/r") (codes "/z/r/a/b/c.txt")
      ≡ codes "/z/r/a" ∷ codes "/z/r/a/b" ∷ [])
    × (relative_path_from_root (codes "/z/r/") (codes "/z/r/a/b") ≡ codes "a/b")
    × (parent_runtime_node_path (codes "/z/r") (codes "/z/r/a") ≡ codes "/z/r")
unfolding ancestor_collection_paths parent_runtime_node_path clean dir join segments trim_space
    trim_prefix ◌==◌
ancestors_example = (refl, refl, refl)
