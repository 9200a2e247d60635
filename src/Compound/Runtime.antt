-- ===== src/Compound/Runtime.antt =====
-- The runtime manifest of a compound object (drs-support/compound_create.go): the tree that
-- `buildCompoundRuntimeTree` puts together from the DRS entries that a query finds below a collection,
-- with the collections between, its manifest, and the checksum of that. A node is named by its place in
-- the order of creation, which stands for its pointer. The query takes fuel.
use irods_go_drs.Base.{ℕ, zero, suc, Bool, true, false, Option, none, some, List, [], ◌∷◌, ◌++◌}
use irods_go_drs.Base.{is_nil, eqb, length, if◌then◌else◌}
use irods_go_drs.Base.Exec.{Result, ok, err}
use irods_go_drs.Base.Sort.{sort}
use irods_go_drs.Text.{Text, codes, ◌==◌, lt, trim_space}
use irods_go_drs.Text.FilePath.{clean}
use irods_go_drs.Model.{Avu, Entry, InternalChecksum}
use irods_go_drs.Irods.Interface.{
  Client, ClientError, Error, path_required, no_query_support, missing_parent, excluded_root,
  not_collection,
}
use irods_go_drs.Irods.Actions.{or_empty, stat_entry}
use irods_go_drs.Metadata.Lookup.{drs_id_from_metadata, collection_has_compound_marker}
use irods_go_drs.Objects.Encoding.{hex_encode}
use irods_go_drs.Registry.Create.{is_root_or_empty}
use irods_go_drs.Listing.Scope.{all_scope}
use irods_go_drs.Listing.Entries.{ListingEntry}
use irods_go_drs.Listing.Query.{query_drs_listing_entries_bounded}
use irods_go_drs.Compound.Tree.{Node, node, Nodes, end, also, entry_of, metadata_of}
use irods_go_drs.Compound.Paths.{ancestor_collection_paths, parent_runtime_node_path}
use irods_go_drs.Compound.Preflight.{ManifestNode, build_preflight_node}
use irods_go_drs.Compound.Build.{Built}
use irods_go_drs.Compound.Preview.{account_host, account_port, account_zone}

-- A node with its parent's place, which the root has none of.
pub record RuntimeNode : Type 0 where
  pub parent : Option ℕ
  pub entry : Option Entry
  pub metadata : List (Option Avu)

-- The nodes in the order of their creation, and `nodesByPath`, its latest assignment first.
pub record RuntimeTree : Type 0 where
  pub nodes : List RuntimeNode
  pub nodes_by_path : List (Text × ℕ)

unfoldable pub node_at : Text → List (Text × ℕ) → Option ℕ
node_at path [] = none
node_at path (r ∷ rs) = let rest = node_at path rs in if path == r.0 then some r.1 else rest

-- A new node, which is known by its path before its parent is looked up.
unfoldable pub add_node :
    Text → Text → Option Entry → List (Option Avu) → RuntimeTree → Result Error RuntimeTree
add_node root path entry metas tree =
    let known = (path, length tree.nodes) ∷ tree.nodes_by_path in
    elim (node_at (parent_runtime_node_path root path) known) [
      | none ↦ err (missing_parent path)
      | some parent ↦ ok (record {
        nodes =
            tree.nodes ++ (record { parent = some parent; entry = entry; metadata = metas } ∷ []);
        nodes_by_path = known;
      })
    ]

abbrev pub is_child_of : ℕ → Option ℕ → Bool
is_child_of h none = false
is_child_of h (some parent) = eqb parent h

abbrev pub from_list : List Node → Nodes
from_list [] = end
from_list (n ∷ ns) = also n (from_list ns)

-- The children of a node among the nodes from a place on. A node without an entry adds nothing to a
-- manifest, nor does what is below it, and both are left out here.
unfoldable pub children_from : (ℕ → Nodes) → ℕ → ℕ → List RuntimeNode → List Node
children_from below h i [] = []
children_from below h i (n ∷ ns) =
    let rest = children_from below h (suc i) ns in
    elim n.entry [
      | none ↦ rest
      | some entry ↦ if is_child_of h n.parent then node entry n.metadata (below i) ∷ rest else rest
    ]

abbrev pub node_before : Node → Node → Bool
node_before m n = lt (entry_of m).path (entry_of n).path

-- The children of a node with all below them, sorted by `sortCompoundTreeChildren`. A parent is older
-- than its children, so that no branch is longer than the list of nodes.
unfoldable pub sorted_children : ℕ → List RuntimeNode → ℕ → Nodes
sorted_children zero nodes h = end
sorted_children (suc depth) nodes h =
    from_list (sort node_before (children_from (sorted_children depth nodes) h 0 nodes))

unfoldable pub runtime_root : Entry → List (Option Avu) → RuntimeTree → Node
runtime_root entry metas tree = node entry metas (sorted_children (length tree.nodes) tree.nodes 0)

abbrev pub before_path : ListingEntry → ListingEntry → Bool
before_path l m = lt l.path m.path

unfoldable pub named_entries : List ListingEntry → List ListingEntry
named_entries [] = []
named_entries (l ∷ ls) =
    let rest = named_entries ls in if is_nil (trim_space l.path) then rest else l ∷ rest

pub record CompoundRuntimeManifest : Type 0 where
  pub host : Text
  pub port : ℕ
  pub zone : Text
  pub root_path : Text
  pub root_drs_id : Text
  pub warnings : List Text
  pub manifest : ManifestNode

-- `json.Marshal` of a manifest, which cannot fail on it, and `md5.Sum`.
pub record Digest : Type 0 where
  pub marshal : CompoundRuntimeManifest → List ℕ
  pub md5_sum : List ℕ → List ℕ

abbrev pub id_warning : Text → List Text
id_warning drs_id = if is_nil drs_id then codes "root collection has no DRS id" ∷ [] else []

abbrev pub marker_warning : List (Option Avu) → List Text
marker_warning metas =
    if collection_has_compound_marker metas
    then []
    else codes "root collection is not marked as a compound DRS object" ∷ []

abbrev pub runtime_root_path : Entry → Text
runtime_root_path entry =
    let p = clean entry.path in
    if is_nil p then codes "/" else if p == codes "." then codes "/" else p

module _ (C : Client) (s : C.State) where
  abbrev pub add_read :
      Text
      → Text
      → Option Entry
      → Result Error (List (Option Avu))
      → RuntimeTree
      → Result Error RuntimeTree
  add_read root path entry (err e) tree = err e
  add_read root path entry (ok metas) tree = add_node root path entry metas tree

  abbrev pub add_ancestor :
      Text → Text → Result ClientError (Option Entry) → RuntimeTree → Result Error RuntimeTree
  add_ancestor root path (err e) tree = err (Error.client e)
  add_ancestor root path (ok entry) tree =
      add_read root path entry (or_empty (C.list_metadata path s)) tree

  abbrev pub and_then :
      Result Error RuntimeTree → (RuntimeTree → Result Error RuntimeTree) → Result Error RuntimeTree
  and_then (err e) next = err e
  and_then (ok tree) next = next tree

  -- The loop over the collections between the root and an entry.
  unfoldable pub add_ancestors : Text → List Text → RuntimeTree → Result Error RuntimeTree
  add_ancestors root [] tree = ok tree
  add_ancestors root (path ∷ paths) tree = elim (node_at path tree.nodes_by_path) [
    | some known ↦ add_ancestors root paths tree
    | none ↦ and_then (add_ancestor root path (stat_entry C path s) tree) (add_ancestors root paths)
  ]

  -- The loop over the entries that the query found.
  unfoldable pub add_listing_entries :
      Text → List ListingEntry → RuntimeTree → Result Error RuntimeTree
  add_listing_entries root [] tree = ok tree
  add_listing_entries root (l ∷ ls) tree =
      and_then (add_ancestors root (ancestor_collection_paths root l.path) tree) λ known.
        and_then (add_read root l.path (some l.entry) (or_empty (C.list_metadata l.path s)) known)
          (add_listing_entries root ls)

  abbrev pub tree_of : Entry → List (Option Avu) → Result Error RuntimeTree → Result Error Node
  tree_of entry metas (err e) = err e
  tree_of entry metas (ok tree) = ok (runtime_root entry metas tree)

  abbrev pub from_listing :
      Entry → List (Option Avu) → Built (List ListingEntry × Bool) → Built Node
  from_listing entry metas none = none
  from_listing entry metas (some (err e)) = some (err e)
  from_listing entry metas (some (ok listing)) =
      let root = runtime_root_path entry in
      let start : RuntimeTree = record {
        nodes = record { parent = none; entry = some entry; metadata = metas } ∷ [];
        nodes_by_path = (root, 0) ∷ [];
      } in
      some (
        tree_of entry metas
          (add_listing_entries root (sort before_path (named_entries listing.0)) start))

  -- `buildCompoundRuntimeTree`
  unfoldable pub build_compound_runtime_tree : ℕ → Entry → List (Option Avu) → Built Node
  build_compound_runtime_tree fuel entry metas = elim C.query [
    | none ↦ some (err no_query_support)
    | some query ↦ from_listing entry metas (
        query_drs_listing_entries_bounded (λ q. query q s) fuel (runtime_root_path entry) true
          all_scope 0)
  ]

  abbrev pub runtime_manifest_of :
      Text → Node → Option ManifestNode → Result Error CompoundRuntimeManifest
  runtime_manifest_of root tree none = err (excluded_root root)
  runtime_manifest_of root tree (some manifest) = ok (record {
    host = account_host (C.account s);
    port = account_port (C.account s);
    zone = account_zone (C.account s);
    root_path = root;
    root_drs_id = drs_id_from_metadata (metadata_of tree);
    warnings =
        id_warning (drs_id_from_metadata (metadata_of tree)) ++ marker_warning (metadata_of tree);
    manifest = manifest;
  })

  abbrev pub then_manifest : Text → Built Node → Built CompoundRuntimeManifest
  then_manifest root none = none
  then_manifest root (some (err e)) = some (err e)
  then_manifest root (some (ok tree)) =
      some (runtime_manifest_of root tree (build_preflight_node root none tree))

  -- The tree of a stat result that is a collection.
  abbrev pub runtime_tree :
      ℕ → Text → Result ClientError (Option Entry) → Result Error (List (Option Avu)) → Built Node
  runtime_tree fuel root (err e) metas = some (err (Error.client e))
  runtime_tree fuel root (ok none) metas = some (err (not_collection root))
  runtime_tree fuel root (ok (some entry)) metas =
      if entry.is_dir
      then elim metas [
        | err e ↦ some (err e)
        | ok found ↦ build_compound_runtime_tree fuel entry found
      ]
      else some (err (not_collection root))

  unfoldable pub build_compound_runtime_manifest : ℕ → Text → Built CompoundRuntimeManifest
  build_compound_runtime_manifest fuel collection_path =
      let root = C.correct_path (trim_space collection_path) in
      if is_root_or_empty root
      then some (err path_required)
      else then_manifest root
          (runtime_tree fuel root (stat_entry C root s) (or_empty (C.list_metadata root s)))

  -- `CompoundRuntimeManifestChecksum`
  unfoldable pub compound_runtime_manifest_checksum :
      Digest → CompoundRuntimeManifest → InternalChecksum
  compound_runtime_manifest_checksum digest manifest = record {
    type = codes "md5";
    value = hex_encode (digest.md5_sum (digest.marshal manifest));
  }

  abbrev pub then_checksum : Digest → Built CompoundRuntimeManifest → Built InternalChecksum
  then_checksum digest none = none
  then_checksum digest (some (err e)) = some (err e)
  then_checksum digest (some (ok m)) = some (ok (compound_runtime_manifest_checksum digest m))

  unfoldable pub build_compound_runtime_manifest_checksum :
      Digest → ℕ → Text → Built InternalChecksum
  build_compound_runtime_manifest_checksum digest fuel collection_path =
      then_checksum digest (build_compound_runtime_manifest fuel collection_path)
