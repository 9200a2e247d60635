-- ===== src/Irods/Deletion.antt =====
-- The loop that deletes those AVUs of a list that pass a test, and stops at the first failure. It
-- stands in `UpdateDrsObjectMetadataField`, `UpdateDrsObjectAliases`,
-- `RemoveSingleDrsObjectFromDataObject`, `upsertDrsMetadata` and `stripDrsSemanticsRecursive`, each
-- with its own test.
use irods_go_drs.Base.{◌≡◌, Bool, ◌&&◌, not, Option, none, some, List, [], ◌∷◌}
use irods_go_drs.Base.{arith, if◌then◌else◌}
use irods_go_drs.Base.Exec.{ok, pure, ◌>>◌}
use irods_go_drs.Text.{Text, ◌==◌}
use irods_go_drs.Model.{Avu}
use irods_go_drs.Irods.Interface.{Client}
use irods_go_drs.Irods.Stored.{avu_eq_iff, contains, stored, IsLawful}
use irods_go_drs.Irods.Actions.{Action, call}

module _ (C : Client) (test : Option Avu → Bool) (p : Text) where
  unfoldable pub delete_matching : List (Option Avu) → Action C (Unit {0})
  delete_matching [] = pure tt
  delete_matching (none ∷ metas) = delete_matching metas
  delete_matching (some m ∷ metas) =
      let rest = delete_matching metas in
      if test (some m) then call C (C.delete_metadata_by_avu p m) >> rest else rest

  -- After a loop that succeeds, the path has lost exactly the AVUs of the list that pass the test.
  pub stored-delete_matching :
      (L : IsLawful C) (metas : List (Option Avu)) (q : Text) (x : Avu) (s : C.State)
      → (delete_matching metas s).0 ≡ ok tt
      → stored C q x (delete_matching metas s).1
        ≡ (stored C q x s && not (q == p && (test (some x) && contains x metas)))
  unfolding delete_matching contains
  stored-delete_matching L [] q x s h = ground arith
  stored-delete_matching L (none ∷ metas) q x s h = stored-delete_matching L metas q x s h
  stored-delete_matching L (some m ∷ metas) q x s h = ground (
    arith,
    avu_eq_iff x m,
    L.stored-delete p q m x s,
    stored-delete_matching L metas q x s,
    stored-delete_matching L metas q x (C.delete_metadata_by_avu p m s).1,
  )
