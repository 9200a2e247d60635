-- ===== src/Compound/Create.antt =====
-- `CreateCompoundDrsObjectFromCollection` of drs-support/compound_create.go. What the ignore library reads
-- from a `.drsignore` file is a parameter.
pub mod Spares
pub mod Marked
use irods_go_drs.Base.{
  ℕ, Bool, true, false, ◌&&◌, ◌||◌, not, Option, none, some, List, [], ◌∷◌, ◌++◌, is_nil,
  if◌then◌else◌,
}
use irods_go_drs.Base.Exec.{Result, ok, err, pure, raise, reads, ◌>>=◌, ◌>>◌}
use irods_go_drs.Text.{Text, codes, trim_space}
use irods_go_drs.Text.FilePath.{clean, join}
use irods_go_drs.Model.{Avu, Entry}
use irods_go_drs.Irods.Interface.{
  Client, ClientError, not_found, failed, Error, client, path_required, not_collection,
  already_compound, descendant_compound, ignore_is_collection, nil_dereference,
}
use irods_go_drs.Irods.Actions.{Action, call, wrap, stat_entry}
use irods_go_drs.Metadata.Attributes.{drs_id_avu_attrib, drs_avu_compound_manifest_attrib}
use irods_go_drs.Metadata.Lookup.{drs_id_from_metadata, collection_has_compound_marker}
use irods_go_drs.Registry.Guid.{format_guid}
use irods_go_drs.Registry.Create.{is_root_or_empty, create_drs_object_from_data_object}
use irods_go_drs.Registry.Complete.{ensure_data_object_drs_completeness}
use irods_go_drs.Registry.Upsert.{upsert_drs_metadata}
use irods_go_drs.Compound.Tree.{
  Node, entry_of, metadata_of, drs_ignore_file_name, fail_if_descendant_compound,
}
use irods_go_drs.Compound.Preflight.{Ignores}
use irods_go_drs.Compound.Included.{compound_creation_data_nodes}
use irods_go_drs.Compound.Build.{Built, build_compound_tree}

-- `CompoundCreateNodeError`, with the error that its message shows.
pub record NodeError : Type 0 where
  pub path : Text
  pub cause : Error

pub record CompoundCreateResult : Type 0 where
  pub drs_id : Text
  pub root_path : Text
  pub node_errors : List NodeError

-- `ReadIgnoreFileFromIRODS` and `NewIgnores` with no lines.
pub record IgnoreLibrary (C : Client) : Type 0 where
  pub read_ignore_file : Text → Text → C.State → Result ClientError Ignores
  pub new_ignores : Text → Result ClientError Ignores

unfoldable pub ignore_path : Text → Text
ignore_path root_path = clean (join root_path drs_ignore_file_name)

abbrev pub is_panic : Error → Bool
is_panic nil_dereference = true
is_panic e = false

-- A failed step as the list that is appended to the errors.
abbrev pub failure : {A : Type 0} → Text → Result Error A → List NodeError
failure path (ok a) = []
failure path (err e) = record { path = path; cause = e } ∷ []

module _ (C : Client) where
  -- `HasCompoundIgnoreFile` behind the check of its path: whether the file is there, and its path.
  abbrev pub ignore_file_at : Text → Result ClientError (Option Entry) → Result Error (Bool × Text)
  ignore_file_at path (err not_found) = ok (false, path)
  ignore_file_at path (err (failed e)) = err (client (failed e))
  ignore_file_at path (ok none) = ok (false, path)
  ignore_file_at path (ok (some entry)) =
      if entry.is_dir then err (ignore_is_collection path) else ok (true, path)

  unfoldable pub has_compound_ignore_file : Text → C.State → Result Error (Bool × Text)
  has_compound_ignore_file collection_path s =
      let root = C.correct_path (trim_space collection_path) in
      if is_root_or_empty root
      then err path_required
      else ignore_file_at (ignore_path root) (stat_entry C (ignore_path root) s)

  abbrev pub ignores_of :
      Result ClientError Ignores → Result ClientError Ignores → Result Error Ignores
  ignores_of (ok rules) empty = ok rules
  ignores_of (err not_found) empty = wrap empty
  ignores_of (err (failed e)) empty = err (client (failed e))

  -- `readCompoundIgnores`
  unfoldable pub read_compound_ignores : IgnoreLibrary C → Text → C.State → Result Error Ignores
  read_compound_ignores lib root s =
      ignores_of (lib.read_ignore_file (ignore_path root) root s) (lib.new_ignores root)

  -- One data object: it is registered where it has no id yet, and then completed.
  unfoldable pub create_node : Node → Action C (Unit {0})
  create_node n =
      let path = (entry_of n).path in
      let complete = ensure_data_object_drs_completeness C path in
      if is_nil (drs_id_from_metadata (metadata_of n))
      then (do create_drs_object_from_data_object C path [] [] []; complete)
      else complete

  abbrev pub note_failure :
      NodeError → Result Error (List NodeError) → Result Error (List NodeError)
  note_failure e (err panic) = err panic
  note_failure e (ok errors) = ok (e ∷ errors)

  -- What follows one node: a failed node is note_failure, and the next one goes on; a panic ends all.
  abbrev pub after_node :
      Text
      → Result Error (Unit {0})
      → C.State
      → Result Error (List NodeError) × C.State
      → Result Error (List NodeError) × C.State
  after_node path (ok u) t rest = rest
  after_node path (err e) t rest =
      if is_panic e
      then (err e, t)
      else (note_failure (record { path = path; cause = e }) rest.0, rest.1)

  -- The loop over the nodes.
  unfoldable pub create_nodes : List Node → Action C (List NodeError)
  create_nodes [] s = (ok [], s)
  create_nodes (n ∷ ns) s =
      let r = create_node n s in
      let rest = create_nodes ns r.1 in after_node (entry_of n).path r.0 r.1 rest

  abbrev pub result_of : Text → Text → List NodeError → CompoundCreateResult
  result_of root drs_id errors = record { drs_id = drs_id; root_path = root; node_errors = errors }

  -- The root is marked only where no node failed.
  unfoldable pub mark_root : Text → Text → List NodeError × C.State → CompoundCreateResult × C.State
  mark_root root drs_id (e ∷ errors, s) = (result_of root drs_id (e ∷ errors), s)
  mark_root root drs_id ([], s) =
      let r = upsert_drs_metadata C root drs_id_avu_attrib drs_id s in
      let q = upsert_drs_metadata C root drs_avu_compound_manifest_attrib (codes "true") r.1 in
      (result_of root drs_id (failure root r.0 ++ failure root q.0), q.1)

  abbrev pub marked :
      Text
      → Text
      → Result Error (List NodeError) × C.State
      → Result Error CompoundCreateResult × C.State
  marked root drs_id (err panic, s) = (err panic, s)
  marked root drs_id (ok errors, s) = let r = mark_root root drs_id (errors, s) in (ok r.0, r.1)

  unfoldable pub write_compound : Text → Text → List Node → Action C CompoundCreateResult
  write_compound root drs_id nodes s = marked root drs_id (create_nodes nodes s)

  -- The checks of the tree.
  unfoldable pub check_tree : Text → Node → Result Error (Unit {0})
  check_tree root tree =
      if collection_has_compound_marker (metadata_of tree)
      then err (already_compound root)
      else elim (fail_if_descendant_compound tree) [
        | none ↦ ok tt
        | some path ↦ err (descendant_compound path)
      ]

  -- The id that the root has, or a new one.
  unfoldable pub root_id : Node → Action C Text
  root_id tree =
      let found = drs_id_from_metadata (metadata_of tree) in
      if is_nil found
      then (do bytes ← call C C.random_bytes; pure (format_guid bytes))
      else pure found

  unfoldable pub create_from_tree : IgnoreLibrary C → Text → Node → Action C CompoundCreateResult
  create_from_tree lib root tree = do
    reads (λ s. check_tree root tree)
    drs_id ← root_id tree
    rules ← reads (read_compound_ignores lib root)
    write_compound root drs_id (compound_creation_data_nodes root rules tree)

  -- The root is a collection.
  abbrev pub check_root : Text → Result ClientError (Option Entry) → Result Error (Unit {0})
  check_root root (err e) = err (client e)
  check_root root (ok none) = err (not_collection root)
  check_root root (ok (some entry)) = if entry.is_dir then ok tt else err (not_collection root)

  abbrev pub then_build : Result Error (Unit {0}) → Built Node → Built Node
  then_build (err e) built = some (err e)
  then_build (ok u) built = built

  abbrev pub then_create :
      IgnoreLibrary C
      → Text
      → C.State
      → Built Node
      → Option (Result Error CompoundCreateResult × C.State)
  then_create lib root s none = none
  then_create lib root s (some (err e)) = some (err e, s)
  then_create lib root s (some (ok tree)) = some (create_from_tree lib root tree s)

  unfoldable pub create_compound_drs_object_from_collection :
      IgnoreLibrary C → ℕ → Text → C.State → Option (Result Error CompoundCreateResult × C.State)
  create_compound_drs_object_from_collection lib fuel collection_path s =
      let root = C.correct_path (trim_space collection_path) in
      if is_root_or_empty root
      then some (err path_required, s)
      else then_create lib root s
          (then_build (check_root root (stat_entry C root s)) (build_compound_tree C s fuel root))

  abbrev pub id_of :
      Option (Result Error CompoundCreateResult × C.State) → Option (Result Error Text × C.State)
  id_of none = none
  id_of (some (err e, s)) = some (err e, s)
  id_of (some (ok result, s)) = some (ok result.drs_id, s)

  -- Its other two arguments are not read.
  unfoldable pub create_compound_drs_object_from_data_object :
      IgnoreLibrary C → ℕ → Text → C.State → Option (Result Error Text × C.State)
  create_compound_drs_object_from_data_object lib fuel absolute_path s =
      id_of (create_compound_drs_object_from_collection lib fuel absolute_path s)
