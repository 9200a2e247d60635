-- ===== src/Compound/Mirrors.antt =====
-- The tree that is built is what the client shows below its root, and building it ends.
use irods_go_drs.Base.{
  ℕ, zero, suc, ◌<◌, ◌≡◌, ◌≢◌, refl, Bool, true, false, Option, none, some, List, [], ◌∷◌, arith,
}
use irods_go_drs.Base.Exec.{Result, ok, err}
use irods_go_drs.Text.{Text}
use irods_go_drs.Model.{Avu, Entry}
use irods_go_drs.Irods.Interface.{Client, ClientError, Error}
use irods_go_drs.Irods.Actions.{or_empty, stat_entry}
use irods_go_drs.Irods.Depth.{AllBelow, AllBelow-le, IsDepth}
use irods_go_drs.Compound.Tree.{Node, node, Nodes, end, also}
use irods_go_drs.Compound.Build.{
  Built, join_nodes, with_children, build_nodes, build_listing, build_below, build_entry, is_dir_of,
  build_compound_tree,
}

-- The entries of a listing without the nil ones.
abbrev pub present : List (Option Entry) → List Entry
present [] = []
present (none ∷ children) = present children
present (some child ∷ children) = child ∷ present children

module _ (C : Client) (s : C.State) where
  -- What the client lists below a path: entries of a collection, and nothing below a data object.
  abbrev pub Lists : Text → Bool → List Entry → Type 0
  Lists path false es = es ≡ []
  Lists path true es =
      (listing : List (Option Entry)) × (C.list path s ≡ ok listing) × (present listing ≡ es)

  -- The node is the entry of the path with its AVUs, and its children are what the client lists below,
  -- in that order.
  abbrev mutual
    pub Mirrors : Text → Node → Type 0
    Mirrors path (node e metas children) =
        (stat_entry C path s ≡ ok (some e))
        × (or_empty (C.list_metadata path s) ≡ ok metas)
        × ((es : List Entry) × Lists path e.is_dir es × MirrorsListed es children)

    pub MirrorsListed : List Entry → Nodes → Type 0
    MirrorsListed [] end = Unit
    MirrorsListed [] (also n ns) = ⊥
    MirrorsListed (e ∷ es) end = ⊥
    MirrorsListed (e ∷ es) (also n ns) = Mirrors e.path n × MirrorsListed es ns

  abbrev pub OnBuilt : {A : Type 0} → (A → Type 0) → Built A → Type 0
  OnBuilt P none = Unit
  OnBuilt P (some (err e)) = Unit
  OnBuilt P (some (ok a)) = P a

  module _ (build : Text → Built Node) (mirrors : (p : Text) → OnBuilt (Mirrors p) (build p)) where
    join_nodes-Mirrors :
        (child : Entry) (es : List Entry) (b : Built Node) (bs : Built Nodes)
        → OnBuilt (Mirrors child.path) b
        → OnBuilt (MirrorsListed es) bs
        → OnBuilt (MirrorsListed (child ∷ es)) (join_nodes b bs)
    join_nodes-Mirrors child es none bs h k = tt
    join_nodes-Mirrors child es (some (err e)) bs h k = tt
    join_nodes-Mirrors child es (some (ok n)) none h k = tt
    join_nodes-Mirrors child es (some (ok n)) (some (err e)) h k = tt
    join_nodes-Mirrors child es (some (ok n)) (some (ok ns)) h k = (h, k)

    build_nodes-Mirrors :
        (children : List (Option Entry))
        → OnBuilt (MirrorsListed (present children)) (build_nodes C s build children)
    unfolding build_nodes
    build_nodes-Mirrors [] = tt
    build_nodes-Mirrors (none ∷ children) = build_nodes-Mirrors children
    build_nodes-Mirrors (some child ∷ children) =
        join_nodes-Mirrors child (present children) (build child.path)
          (build_nodes C s build children) (mirrors child.path) (build_nodes-Mirrors children)

    with_children-Mirrors :
        (path : Text) (entry : Entry) (metas : List (Option Avu)) (children : List (Option Entry))
        (b : Built Nodes)
        → stat_entry C path s ≡ ok (some entry)
        → or_empty (C.list_metadata path s) ≡ ok metas
        → entry.is_dir ≡ true
        → C.list path s ≡ ok children
        → OnBuilt (MirrorsListed (present children)) b
        → OnBuilt (Mirrors path) (with_children entry metas b)
    with_children-Mirrors path entry metas children none es em d el h = tt
    with_children-Mirrors path entry metas children (some (err e)) es em d el h = tt
    with_children-Mirrors path entry metas children (some (ok ns)) es em d el h =
        (es, em, (present children, rw d (children, el, refl), h))

    build_listing-Mirrors :
        (path : Text) (entry : Entry) (metas : List (Option Avu))
        (listing : Result ClientError (List (Option Entry)))
        → stat_entry C path s ≡ ok (some entry)
        → or_empty (C.list_metadata path s) ≡ ok metas
        → entry.is_dir ≡ true
        → C.list path s ≡ listing
        → OnBuilt (Mirrors path) (build_listing C s build entry metas listing)
    build_listing-Mirrors path entry metas (err e) es em d el = tt
    build_listing-Mirrors path entry metas (ok children) es em d el =
        with_children-Mirrors path entry metas children (build_nodes C s build children) es em d el
          (build_nodes-Mirrors children)

    build_below-Mirrors :
        (path : Text) (found : Option Entry) (metas : List (Option Avu)) (d : Bool)
        → stat_entry C path s ≡ ok found
        → or_empty (C.list_metadata path s) ≡ ok metas
        → is_dir_of C s found ≡ d
        → OnBuilt (Mirrors path) (build_below C s build path found metas d)
    build_below-Mirrors path none metas d es em ed = tt
    build_below-Mirrors path (some entry) metas true es em ed =
        build_listing-Mirrors path entry metas (C.list path s) es em ed refl
    build_below-Mirrors path (some entry) metas false es em ed = (es, em, ([], rw ed refl, tt))

    build_entry-Mirrors :
        (path : Text) (found : Result ClientError (Option Entry))
        (listing : Result Error (List (Option Avu)))
        → stat_entry C path s ≡ found
        → or_empty (C.list_metadata path s) ≡ listing
        → OnBuilt (Mirrors path) (build_entry C s build path found listing)
    build_entry-Mirrors path (err e) listing es em = tt
    build_entry-Mirrors path (ok found) (err e) es em = tt
    build_entry-Mirrors path (ok found) (ok metas) es em =
        build_below-Mirrors path found metas (is_dir_of C s found) es em refl

  build_compound_tree-Mirrors :
      (fuel : ℕ) (path : Text) → OnBuilt (Mirrors path) (build_compound_tree C s fuel path)
  unfolding build_compound_tree
  build_compound_tree-Mirrors zero path = tt
  build_compound_tree-Mirrors (suc fuel) path =
      build_entry-Mirrors (build_compound_tree C s fuel) (build_compound_tree-Mirrors fuel) path
        (stat_entry C path s) (or_empty (C.list_metadata path s)) refl refl

  module _ (n : ℕ) (depth : Text → ℕ) (build : Text → Built Node)
      (ends : (p : Text) → depth p < n → build p ≢ none) where
    join_nodes_total :
        (b : Built Node) (bs : Built Nodes) → b ≢ none → bs ≢ none → join_nodes b bs ≢ none
    join_nodes_total none bs h k = absurd (h refl)
    join_nodes_total (some (err e)) bs h k = ground arith
    join_nodes_total (some (ok t)) none h k = absurd (k refl)
    join_nodes_total (some (ok t)) (some (err e)) h k = ground arith
    join_nodes_total (some (ok t)) (some (ok ns)) h k = ground arith

    build_nodes_total :
        (children : List (Option Entry))
        → AllBelow depth n children
        → build_nodes C s build children ≢ none
    unfolding build_nodes
    build_nodes_total [] b = ground arith
    build_nodes_total (none ∷ children) b = build_nodes_total children b
    build_nodes_total (some child ∷ children) b =
        join_nodes_total (build child.path) (build_nodes C s build children) (ends child.path b.0)
          (build_nodes_total children b.1)

    with_children_total :
        (entry : Entry) (metas : List (Option Avu)) (b : Built Nodes)
        → b ≢ none
        → with_children entry metas b ≢ none
    with_children_total entry metas none h = absurd (h refl)
    with_children_total entry metas (some (err e)) h = ground arith
    with_children_total entry metas (some (ok ns)) h = ground arith

    build_listing_total :
        (entry : Entry) (metas : List (Option Avu))
        (listing : Result ClientError (List (Option Entry)))
        → ((children : List (Option Entry)) → listing ≡ ok children → AllBelow depth n children)
        → build_listing C s build entry metas listing ≢ none
    build_listing_total entry metas (err e) h = ground arith
    build_listing_total entry metas (ok children) h =
        with_children_total entry metas (build_nodes C s build children)
          (build_nodes_total children (h children refl))

    build_entry_total :
        (path : Text) (found : Result ClientError (Option Entry))
        (listing : Result Error (List (Option Avu)))
        → ((children : List (Option Entry))
            → C.list path s ≡ ok children
            → AllBelow depth n children)
        → build_entry C s build path found listing ≢ none
    build_entry_total path (err e) listing h = ground arith
    build_entry_total path (ok found) (err e) h = ground arith
    build_entry_total path (ok none) (ok metas) h = ground arith
    build_entry_total path (ok (some entry)) (ok metas) h = below entry.is_dir
      where
        below : (d : Bool) → build_below C s build path (some entry) metas d ≢ none
        below false = ground arith
        below true = build_listing_total entry metas (C.list path s) h

  build_compound_tree_total :
      (depth : Text → ℕ) (is_depth : IsDepth C depth) (fuel : ℕ) (path : Text)
      → depth path < fuel
      → build_compound_tree C s fuel path ≢ none
  unfolding build_compound_tree
  build_compound_tree_total depth is_depth zero path k = absurd (omega arith)
  build_compound_tree_total depth is_depth (suc fuel) path k =
      build_entry_total fuel depth (build_compound_tree C s fuel)
        (build_compound_tree_total depth is_depth fuel) path (stat_entry C path s)
        (or_empty (C.list_metadata path s))
        λ children l.
          AllBelow-le depth (depth path) fuel children (omega arith) (is_depth path s children l)

  abbrev pub OnTree : (Node → Type 0) → Result Error Node → Type 0
  OnTree P (err e) = Unit
  OnTree P (ok tree) = P tree

  result_of :
      (P : Node → Type 0) (b : Built Node)
      → b ≢ none
      → OnBuilt P b
      → (r : Result Error Node) × (b ≡ some r) × OnTree P r
  result_of P none n h = absurd (n refl)
  result_of P (some (err e)) n h = (err e, refl, tt)
  result_of P (some (ok tree)) n h = (ok tree, refl, h)

  -- If the entries of every listing measure less than the collection, then on fuel above the measure of a
  -- path the building of its tree ends, with an error or with a tree; and that tree is the entry of the
  -- path with its AVUs and, below a collection, in order, the trees of the entries that the client lists
  -- there.
  pub build_compound_tree_lem :
      (depth : Text → ℕ) (is_depth : IsDepth C depth) (fuel : ℕ) (path : Text)
      → depth path < fuel
      → (r : Result Error Node) × (build_compound_tree C s fuel path ≡ some r)
        × OnTree (Mirrors path) r
  build_compound_tree_lem depth is_depth fuel path k =
      result_of (Mirrors path) (build_compound_tree C s fuel path)
        (build_compound_tree_total depth is_depth fuel path k)
        (build_compound_tree-Mirrors fuel path)
