-- ===== src/Compound/Agreement.antt =====
-- The preview of a manifest against the creation: which data objects each of them takes.
use irods_go_drs.Base.{◌≡◌, refl, ◌∙◌, ap, sym, subst, Bool, true, false, not, Option, none, some}
use irods_go_drs.Base.{List, [], ◌∷◌, ◌++◌, map, filter, filter-append, arith, if◌then◌else◌}
use irods_go_drs.Text.{Text, codes, ◌==◌}
use irods_go_drs.Model.{Avu, Entry}
use irods_go_drs.Compound.Tree.{
  Node, node, Nodes, end, also, entry_of, is_default_excluded_compound_entry,
}
use irods_go_drs.Compound.Preflight.{
  ManifestNode, manifest_node, ManifestNodes, no_more, and_also, Ignores, node_info, is_left_out,
  compound_node_type, build_preflight_node, build_children,
}
use irods_go_drs.Compound.Breadth.{included, included_in, collect_included_nodes-perm}
use irods_go_drs.Compound.Included.{compound_creation_data_nodes}
use mathlib.Core.List.{Perm, map-append}
use mathlib.Core.List.Perm
use irods_go_drs.Base.Sort.{sort-perm, filter-perm, map-perm}

-- The paths of the data objects in a manifest.
unfoldable mutual
  pub data_paths : ManifestNode → List Text
  data_paths (manifest_node info children) =
      let below = data_paths_in children in
      if info.node_type == codes "data_object" then info.path ∷ below else below

  pub data_paths_in : ManifestNodes → List Text
  data_paths_in no_more = []
  data_paths_in (and_also m ms) = data_paths m ++ data_paths_in ms

abbrev pub data_paths_of : Option ManifestNode → List Text
data_paths_of none = []
data_paths_of (some m) = data_paths m

-- The paths of the data objects among nodes.
abbrev pub object_paths : List Node → List Text
object_paths ns = map (λ n. (entry_of n).path) (filter (λ n. not (entry_of n).is_dir) ns)

object_paths-append :
    (ns ms : List Node) → object_paths (ns ++ ms) ≡ object_paths ns ++ object_paths ms
object_paths-append ns ms =
    ap (map (λ n. (entry_of n).path)) (filter-append (λ n. not (entry_of n).is_dir) ns ms)
    ∙ map-append _ _ _

compound_node_type-is_dir : (e : Entry) → compound_node_type e == codes "data_object" ≡ not e.is_dir
unfolding compound_node_type ◌==◌
compound_node_type-is_dir e = ground arith

module _ (root_path : Text) (ignores : Ignores) where
  -- The rules take nothing that lies below an entry which they leave out.
  abbrev mutual
    pub IsClosed : Node → Type 0
    IsClosed (node e metas children) =
        (is_left_out root_path ignores e ≡ true → included_in root_path ignores children ≡ [])
        × IsClosedIn children

    pub IsClosedIn : Nodes → Type 0
    IsClosedIn end = Unit
    IsClosedIn (also n ns) = IsClosed n × IsClosedIn ns

  node_info-is_data_object :
      (e : Entry) (metas : List (Option Avu))
      → (node_info root_path ignores e metas).node_type == codes "data_object" ≡ not e.is_dir
  unfolding node_info
  node_info-is_data_object e metas = compound_node_type-is_dir e

  -- The case of one node, by the tests on its entry.
  preview_of_node :
      (e : Entry) (metas : List (Option Avu)) (children : Nodes) (control out is_dir : Bool)
      → is_default_excluded_compound_entry e ≡ control
      → is_left_out root_path ignores e ≡ out
      → e.is_dir ≡ is_dir
      → IsClosed (node e metas children)
      → data_paths_in (build_children root_path ignores children)
        ≡ object_paths (included_in root_path ignores children)
      → data_paths_of (build_preflight_node root_path ignores (node e metas children))
        ≡ object_paths (included root_path ignores (node e metas children))
  unfolding build_preflight_node data_paths included
  preview_of_node e metas children true out d x l k c below = rw x
  preview_of_node e metas children false true d x l k c below = rw (x, l) (rw (c.0 l))
  preview_of_node e metas children false false true x l k c below =
      rw (x, l, node_info-is_data_object e metas, k) below
  preview_of_node e metas children false false false x l k c below =
      unfold node_info in
      rw (x, l, node_info-is_data_object e metas, k) (ap (λ r. e.path ∷ r) below)

  mutual
    unfolding build_preflight_node data_paths included

    preview-agrees :
        (n : Node)
        → IsClosed n
        → data_paths_of (build_preflight_node root_path ignores n)
          ≡ object_paths (included root_path ignores n)
    preview-agrees (node e metas children) c =
        preview_of_node e metas children _ _ _ refl refl refl c (previews-agree children c.1)

    previews-agree :
        (ns : Nodes)
        → IsClosedIn ns
        → data_paths_in (build_children root_path ignores ns)
          ≡ object_paths (included_in root_path ignores ns)
    previews-agree end c = refl
    previews-agree (also n ns) c = ground (
      arith,
      preview-agrees n c.0,
      previews-agree ns c.1,
      object_paths-append (included root_path ignores n) (included_in root_path ignores ns),
    )

  abbrev pub creation_paths : Node → List Text
  creation_paths root =
      map (λ n. (entry_of n).path) (compound_creation_data_nodes root_path ignores root)

  creation_paths-perm :
      (root : Node) → Perm (creation_paths root) (object_paths (included root_path ignores root))
  unfolding compound_creation_data_nodes
  creation_paths-perm root =
      map-perm (λ n. (entry_of n).path)
        (Perm.trans (sort-perm _ _) (
          filter-perm (λ n. not (entry_of n).is_dir)
            (collect_included_nodes-perm root_path ignores root)))

  -- If the ignore rules take nothing that lies below an entry which they leave out, then the manifest
  -- of the preview names exactly the data objects that a creation works on, each as often.
  pub preview-creation :
      (root : Node)
      → IsClosed root
      → Perm (data_paths_of (build_preflight_node root_path ignores root)) (creation_paths root)
  preview-creation root c =
      subst (λ l. Perm l (creation_paths root)) (sym (preview-agrees root c))
        (Perm.symm (creation_paths-perm root))

  -- Without that condition they differ: a collection that the rules leave out, with a data object in
  -- it that they do not, is missing from the preview with the object, and the object is the only one that a
  -- creation works on.
  pub preview_misses_object :
      (e d : Entry) (metas metas' : List (Option Avu))
      → is_default_excluded_compound_entry e ≡ false
      → is_default_excluded_compound_entry d ≡ false
      → is_left_out root_path ignores e ≡ true
      → is_left_out root_path ignores d ≡ false
      → d.is_dir ≡ false
      → let child : Node = node e metas (also (node d metas' end) end) in
        (data_paths_of (build_preflight_node root_path ignores child) ≡ [])
        × Perm (creation_paths child) (d.path ∷ [])
  unfolding build_preflight_node
  preview_misses_object e d metas metas' xe xd le ld k =
      (rw (xe, le), subst (Perm (creation_paths child)) taken (creation_paths-perm child))
    where
      child : Node
      child = node e metas (also (node d metas' end) end)

      taken : object_paths (included root_path ignores child) ≡ d.path ∷ []
      taken = unfold included in rw (xe, le, xd, ld, k)
