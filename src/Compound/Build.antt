-- ===== src/Compound/Build.antt =====
-- `buildCompoundTree` of drs-support/compound_create.go: the tree below a path, read from the client. The
-- recursion takes fuel; `none` means that it ran out, which the source has no counterpart for.
use irods_go_drs.Base.{ℕ, zero, suc, Bool, true, false, Option, none, some, List, [], ◌∷◌}
use irods_go_drs.Base.Exec.{Result, ok, err}
use irods_go_drs.Text.{Text}
use irods_go_drs.Model.{Avu, Entry}
use irods_go_drs.Irods.Interface.{Client, ClientError, Error, nil_dereference}
use irods_go_drs.Irods.Actions.{or_empty, stat_entry}
use irods_go_drs.Compound.Tree.{Node, node, Nodes, end, also}

abbrev pub Built : Type 0 → Type 0
Built A = Option (Result Error A)

-- One child in front of the others.
abbrev pub join_nodes : Built Node → Built Nodes → Built Nodes
join_nodes none others = none
join_nodes (some (err e)) others = some (err e)
join_nodes (some (ok n)) none = none
join_nodes (some (ok n)) (some (err e)) = some (err e)
join_nodes (some (ok n)) (some (ok ns)) = some (ok (also n ns))

abbrev pub with_children : Entry → List (Option Avu) → Built Nodes → Built Node
with_children entry metas none = none
with_children entry metas (some (err e)) = some (err e)
with_children entry metas (some (ok ns)) = some (ok (node entry metas ns))

module _ (C : Client) (s : C.State) where
  -- The loop over the children; a nil child is passed over.
  unfoldable pub build_nodes : (Text → Built Node) → List (Option Entry) → Built Nodes
  build_nodes build [] = some (ok end)
  build_nodes build (none ∷ children) = build_nodes build children
  build_nodes build (some child ∷ children) =
      join_nodes (build child.path) (build_nodes build children)

  abbrev pub build_listing :
      (Text → Built Node)
      → Entry
      → List (Option Avu)
      → Result ClientError (List (Option Entry))
      → Built Node
  build_listing build entry metas (err e) = some (err (Error.client e))
  build_listing build entry metas (ok children) =
      with_children entry metas (build_nodes build children)

  -- What follows the listing of the AVUs; a nil entry makes `IsDir` panic.
  abbrev pub build_below :
      (Text → Built Node) → Text → Option Entry → List (Option Avu) → Bool → Built Node
  build_below build path none metas is_dir = some (err nil_dereference)
  build_below build path (some entry) metas true = build_listing build entry metas (C.list path s)
  build_below build path (some entry) metas false = some (ok (node entry metas end))

  abbrev pub is_dir_of : Option Entry → Bool
  is_dir_of none = false
  is_dir_of (some entry) = entry.is_dir

  abbrev pub build_entry :
      (Text → Built Node)
      → Text
      → Result ClientError (Option Entry)
      → Result Error (List (Option Avu))
      → Built Node
  build_entry build path (err e) listing = some (err (Error.client e))
  build_entry build path (ok found) (err e) = some (err e)
  build_entry build path (ok found) (ok metas) =
      build_below build path found metas (is_dir_of found)

  unfoldable pub build_compound_tree : ℕ → Text → Built Node
  build_compound_tree zero path = none
  build_compound_tree (suc fuel) path =
      build_entry (build_compound_tree fuel) path (stat_entry C path s)
        (or_empty (C.list_metadata path s))
