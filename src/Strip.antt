-- ===== src/Strip.antt =====
-- `StripDrsSemantics` (drs-support/drs_strip.go): the DRS AVUs of an entry, and of all that lies below a
-- collection, are removed. The recursion over the children takes fuel, since the client decides what a
-- collection holds; `none` means that it ran out, which the source has no counterpart for.
pub mod Effect
pub mod Ends
use irods_go_drs.Base.{
  ℕ, zero, suc, ◌+◌, Bool, true, false, ◌&&◌, ◌||◌, not, Option, none, some, List, [], ◌∷◌,
}
use irods_go_drs.Base.{length, filter, ltb, is_nil, if◌then◌else◌}
use irods_go_drs.Base.Exec.{Result, ok, err}
use irods_go_drs.Text.{Text, trim_space}
use irods_go_drs.Model.{Avu, Entry}
use irods_go_drs.Irods.Interface.{Client, ClientError, Error, path_required, nil_dereference}
use irods_go_drs.Irods.Actions.{wrap, stat_entry}
use irods_go_drs.Irods.Deletion.{delete_matching}
use irods_go_drs.Metadata.Attributes.{is_drs_metadata}
use irods_go_drs.Registry.Create.{is_root_or_empty}

pub record StripDrsResult : Type 0 where
  pub root_path : Text
  pub paths_visited : ℕ
  pub paths_with_drs_metadata : ℕ
  pub avus_removed : ℕ

-- The count of the deletions of one path, all of which succeeded.
unfoldable pub count_removed : ℕ → StripDrsResult → StripDrsResult
count_removed removed result =
    if ltb 0 removed
    then record result {
      paths_with_drs_metadata = result.paths_with_drs_metadata + 1;
      avus_removed = result.avus_removed + removed;
    }
    else result

module _ (C : Client) where
  -- A run with fuel, which counts in the result.
  abbrev pub Visit : Type 0
  Visit = StripDrsResult → C.State → Option (Result Error StripDrsResult × C.State)

  abbrev pub then_visit :
      Option (Result Error StripDrsResult × C.State)
      → Visit
      → Option (Result Error StripDrsResult × C.State)
  then_visit none next = none
  then_visit (some (ok result, s)) next = next result s
  then_visit (some (err e, s)) next = some (err e, s)

  -- The loop over the children; a nil child and one with a blank path are passed over.
  unfoldable pub strip_children : (Text → Bool → Visit) → List (Option Entry) → Visit
  strip_children visit [] result s = some (ok result, s)
  strip_children visit (none ∷ children) result s = strip_children visit children result s
  strip_children visit (some child ∷ children) result s =
      if is_nil (trim_space child.path)
      then strip_children visit children result s
      else then_visit (visit child.path child.is_dir result s) (strip_children visit children)

  abbrev pub strip_listing :
      (Text → Bool → Visit) → Result ClientError (List (Option Entry)) → Visit
  strip_listing visit (ok children) result s = strip_children visit children result s
  strip_listing visit (err e) result s = some (err (Error.client e), s)

  -- What follows the deletions of one path.
  abbrev pub strip_below :
      (Text → Bool → Visit)
      → Text
      → Bool
      → ℕ
      → StripDrsResult
      → Result Error (Unit {0}) × C.State
      → Option (Result Error StripDrsResult × C.State)
  strip_below visit path false removed result (ok u, s) =
      some (ok (count_removed removed result), s)
  strip_below visit path true removed result (ok u, s) =
      strip_listing visit (C.list path s) (count_removed removed result) s
  strip_below visit path is_dir removed result (err e, s) = some (err e, s)

  abbrev pub strip_metas :
      (Text → Bool → Visit) → Text → Bool → Result ClientError (List (Option Avu)) → Visit
  strip_metas visit path is_dir (err e) result s = some (err (Error.client e), s)
  strip_metas visit path is_dir (ok metas) result s =
      strip_below visit path is_dir (length (filter is_drs_metadata metas)) result
        (delete_matching C is_drs_metadata path metas s)

  unfoldable pub strip_drs_semantics_recursive : ℕ → Text → Bool → Visit
  strip_drs_semantics_recursive zero path is_dir result s = none
  strip_drs_semantics_recursive (suc fuel) path is_dir result s =
      strip_metas (strip_drs_semantics_recursive fuel) path is_dir (C.list_metadata path s)
        (record result { paths_visited = result.paths_visited + 1 }) s

  -- The fields of a nil entry are read, which panics.
  abbrev pub strip_entry :
      ℕ
      → Text
      → Result ClientError (Option Entry)
      → C.State
      → Option (Result Error StripDrsResult × C.State)
  strip_entry fuel path (err e) s = some (err (Error.client e), s)
  strip_entry fuel path (ok none) s = some (err nil_dereference, s)
  strip_entry fuel path (ok (some entry)) s =
      strip_drs_semantics_recursive fuel entry.path entry.is_dir
        (record {
          root_path = path;
          paths_visited = 0;
          paths_with_drs_metadata = 0;
          avus_removed = 0;
        })
        s

  unfoldable pub strip_drs_semantics :
      ℕ → Text → C.State → Option (Result Error StripDrsResult × C.State)
  strip_drs_semantics fuel irods_path s =
      let path = C.correct_path (trim_space irods_path) in
      if is_root_or_empty path
      then some (err path_required, s)
      else strip_entry fuel path (stat_entry C path s) s
