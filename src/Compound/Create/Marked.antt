-- ===== src/Compound/Create/Marked.antt =====
-- What the creation of a compound object leaves at its root.
use irods_go_drs.Base.{◌≡◌, refl, ◌∙◌, true, false, ◌&&◌, ◌||◌, not, some, List, [], ◌∷◌, ◌++◌}
use irods_go_drs.Base.{is_nil, arith}
use irods_go_drs.Base.Exec.{Result, ok, err}
use irods_go_drs.Text.{Text, codes, ◌==◌, ==_refl, ==_iff, trim_space, is_space}
use irods_go_drs.Model.{Avu}
use mathlib.Core.List.{append-nil}
use irods_go_drs.Irods.Interface.{Client, Error}
use irods_go_drs.Irods.Stored.{avu_eq, avu_eq_iff, stored, IsLawful}
use irods_go_drs.Metadata.Attributes.{
  drs_id_avu_attrib, drs_avu_compound_manifest_attrib, carries, has_drs_unit,
}
use irods_go_drs.Registry.Upsert.{new_avu, upsert_drs_metadata, stored-upsert}
use irods_go_drs.Compound.Tree.{Node}
use irods_go_drs.Compound.Create.{
  NodeError, CompoundCreateResult, failure, create_nodes, mark_root, marked, write_compound,
}

failure_nil :
    {A : Type 0} (path : Text) (r : Result Error A) (errors : List NodeError)
    → failure path r ++ errors ≡ []
    → (a : A) × (r ≡ ok a) × (errors ≡ [])
failure_nil path (ok a) errors h = (a, refl, h)
failure_nil path (err e) errors h = absurd (ground arith)

module _ (C : Client) (L : IsLawful C) (root drs_id : Text) where
  abbrev pub id_avu : Avu
  id_avu = new_avu drs_id_avu_attrib drs_id

  abbrev pub marker_avu : Avu
  marker_avu = new_avu drs_avu_compound_manifest_attrib (codes "true")

  -- The root carries the marker, the id, and no other id.
  abbrev pub IsMarked : C.State → Type 0
  IsMarked t =
      (stored C root marker_avu t ≡ true)
      × (stored C root id_avu t ≡ true)
      × ((x : Avu)
          → carries drs_id_avu_attrib (some x) ≡ true
          → stored C root x t ≡ avu_eq x id_avu)

  -- The states after the two upserts.
  abbrev with_new_id : C.State → C.State
  with_new_id s = (upsert_drs_metadata C root drs_id_avu_attrib drs_id s).1

  abbrev with_marker : C.State → C.State
  with_marker t = (upsert_drs_metadata C root drs_avu_compound_manifest_attrib (codes "true") t).1

  id_carries : carries drs_id_avu_attrib (some id_avu) ≡ true
  unfolding carries ◌==◌ has_drs_unit
  id_carries = refl

  marker_is_written : is_nil (trim_space (codes "true")) ≡ false
  unfolding trim_space is_space
  marker_is_written = refl

  id_is_no_marker :
      (x : Avu)
      → carries drs_id_avu_attrib (some x) ≡ true
      → carries drs_avu_compound_manifest_attrib (some x) ≡ false
  unfolding carries ◌==◌
  id_is_no_marker x h =
      ground
        (arith, ==_iff x.name drs_id_avu_attrib, ==_iff x.name drs_avu_compound_manifest_attrib)

  stored-with_new_id :
      (x : Avu) (s : C.State)
      → is_nil (trim_space drs_id) ≡ false
      → (upsert_drs_metadata C root drs_id_avu_attrib drs_id s).0 ≡ ok tt
      → carries drs_id_avu_attrib (some x) ≡ true
      → stored C root x (with_new_id s) ≡ avu_eq x id_avu
  stored-with_new_id x s n h c =
      ground (arith, stored-upsert C L root drs_id_avu_attrib drs_id root x s h, ==_refl root)

  stored-with_marker :
      (x : Avu) (t : C.State)
      → (upsert_drs_metadata C root drs_avu_compound_manifest_attrib (codes "true") t).0 ≡ ok tt
      → stored C root x (with_marker t) ≡ (
          stored C root x t && not (carries drs_avu_compound_manifest_attrib (some x))
          || avu_eq x marker_avu)
  stored-with_marker x t h = ground (
    arith,
    stored-upsert C L root drs_avu_compound_manifest_attrib (codes "true") root x t h,
    marker_is_written,
    ==_refl root,
  )

  id_is_not_marker_avu :
      (x : Avu) → carries drs_id_avu_attrib (some x) ≡ true → avu_eq x marker_avu ≡ false
  unfolding carries ◌==◌
  id_is_not_marker_avu x h =
      ground (arith, avu_eq_iff x marker_avu, ==_iff x.name drs_id_avu_attrib)

  after_both :
      (s : C.State)
      → is_nil (trim_space drs_id) ≡ false
      → (upsert_drs_metadata C root drs_id_avu_attrib drs_id s).0 ≡ ok tt
      → (upsert_drs_metadata C root drs_avu_compound_manifest_attrib
          (codes "true")
          (with_new_id s)).0
        ≡ ok tt
      → IsMarked (with_marker (with_new_id s))
  after_both s n h k = (
    ground
        (arith, stored-with_marker marker_avu (with_new_id s) k, avu_eq_iff marker_avu marker_avu),
    ids id_avu id_carries ∙ (avu_eq_iff id_avu id_avu).1 refl,
    ids,
  )
    where
      ids :
          (x : Avu)
          → carries drs_id_avu_attrib (some x) ≡ true
          → stored C root x (with_marker (with_new_id s)) ≡ avu_eq x id_avu
      ids x c = ground (
        arith,
        stored-with_marker x (with_new_id s) k,
        stored-with_new_id x s n h c,
        id_is_no_marker x c,
        id_is_not_marker_avu x c,
      )

  mark_root-IsMarked :
      (errors : List NodeError) (s : C.State)
      → is_nil (trim_space drs_id) ≡ false
      → (mark_root C root drs_id (errors, s)).0.node_errors ≡ []
      → IsMarked (mark_root C root drs_id (errors, s)).1
  unfolding mark_root
  mark_root-IsMarked (e ∷ errors) s n h = absurd (ground arith)
  mark_root-IsMarked [] s n h =
      let first = failure_nil root (upsert_drs_metadata C root drs_id_avu_attrib drs_id s).0 _ h in
      let second =
        failure_nil root
          (upsert_drs_metadata C root drs_avu_compound_manifest_attrib (codes "true")
            (with_new_id s)).0
          [] (append-nil _ ∙ first.2) in
      after_both s n first.1 second.1

  marked-IsMarked :
      (errors : Result Error (List NodeError)) (s : C.State) (result : CompoundCreateResult)
      → is_nil (trim_space drs_id) ≡ false
      → (marked C root drs_id (errors, s)).0 ≡ ok result
      → result.node_errors ≡ []
      → IsMarked (marked C root drs_id (errors, s)).1
  marked-IsMarked (err panic) s result n h e = absurd (ground arith)
  marked-IsMarked (ok errors) s result n h e = mark_root-IsMarked errors s n (ground arith)

  -- A creation that reports no failed node, for an id that is not blank, leaves the root with the compound
  -- marker and with that id, trimmed, under the DRS unit, as the only DRS id of the root.
  pub write_compound-IsMarked :
      (nodes : List Node) (s : C.State) (result : CompoundCreateResult)
      → is_nil (trim_space drs_id) ≡ false
      → (write_compound C root drs_id nodes s).0 ≡ ok result
      → result.node_errors ≡ []
      → IsMarked (write_compound C root drs_id nodes s).1
  unfolding write_compound
  write_compound-IsMarked nodes s result n h e =
      marked-IsMarked (create_nodes C nodes s).0 (create_nodes C nodes s).1 result n h e
