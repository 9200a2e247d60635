-- ===== src/Registry/Remove.antt =====
-- `RemoveSingleDrsObjectFromDataObject`
use irods_go_drs.Base.{◌≡◌, refl, false, ◌&&◌, not, Option, none, some, List}
use irods_go_drs.Base.{arith, if◌then◌else◌, inl, inr, Bool-cases}
use irods_go_drs.Base.Exec.{Result, ok, err, raise, reads, ◌>>=◌}
use irods_go_drs.Text.{Text, ◌==◌, ==_iff, trim_space}
use irods_go_drs.Model.{Avu, Entry}
use irods_go_drs.Irods.Interface.{Client, ClientError, path_required, no_entry, compound_object}
use irods_go_drs.Irods.Stored.{contains, stored, stored_of_listing, IsLawful}
use irods_go_drs.Irods.Actions.{Action, wrap, irods_zone_for_path}
use irods_go_drs.Irods.Deletion.{delete_matching, stored-delete_matching}
use irods_go_drs.Metadata.Attributes.{is_drs_metadata}
use irods_go_drs.Objects.FromEntry.{internal_drs_object_from_entry}
use irods_go_drs.Registry.Create.{is_root_or_empty}

module _ (C : Client) where
  -- What follows the two reads: a compound manifest is refused.
  unfoldable pub strip_single : Text → List (Option Avu) → Option Entry → Action C (Unit {0})
  strip_single path metas none s = (err no_entry, s)
  strip_single path metas (some entry) s =
      let object = internal_drs_object_from_entry entry (irods_zone_for_path C path s) metas in
      if object.is_manifest
      then (err (compound_object path), s)
      else delete_matching C is_drs_metadata path metas s

  unfoldable pub remove_single_drs_object_from_data_object : Text → Action C (Unit {0})
  remove_single_drs_object_from_data_object absolute_path =
      let path = C.correct_path (trim_space absolute_path) in
      if is_root_or_empty path then raise path_required else do
        entry ← reads (λ s. wrap (C.stat_file path s))
        metas ← reads (λ s. wrap (C.list_metadata path s))
        strip_single path metas entry

  module _ (L : IsLawful C) (absolute_path : Text) (s : C.State) where
    abbrev path : Text
    path = C.correct_path (trim_space absolute_path)

    abbrev remove : Action C (Unit {0})
    remove = remove_single_drs_object_from_data_object absolute_path

    stored-strip_single :
        (metas : List (Option Avu)) (found : Option Entry) (q : Text) (x : Avu)
        → (strip_single path metas found s).0 ≡ ok tt
        → stored C q x (strip_single path metas found s).1
          ≡ (stored C q x s && not (q == path && (is_drs_metadata (some x) && contains x metas)))
    unfolding strip_single
    stored-strip_single metas none q x h = absurd (ground arith)
    stored-strip_single metas (some entry) q x h =
        ground (arith, stored-delete_matching C is_drs_metadata path L metas q x s)

    stored-remove_of_reads :
        (found : Result ClientError (Option Entry))
        (listing : Result ClientError (List (Option Avu)))
        → C.stat_file path s ≡ found
        → C.list_metadata path s ≡ listing
        → is_root_or_empty path ≡ false
        → (q : Text) (x : Avu) → (remove s).0 ≡ ok tt
        → stored C q x (remove s).1
          ≡ (stored C q x s && not (q == path && is_drs_metadata (some x)))
    unfolding remove_single_drs_object_from_data_object
    stored-remove_of_reads (ok found) (ok metas) ef el eg q x h =
        rw (eg, ef, el)
          (ground (
            arith,
            stored-strip_single metas found q x (rw (eg, ef, el) at h),
            stored_of_listing C path metas x s el,
            ==_iff q path,
          ))
    stored-remove_of_reads _ _ ef el eg q x h = absurd (ground arith)

    -- A removal that succeeds takes from its path exactly the AVUs that are DRS metadata, and leaves
    -- the other AVUs of the path and all AVUs of other paths as they were.
    pub stored-remove :
        (q : Text) (x : Avu)
        → (remove s).0 ≡ ok tt
        → stored C q x (remove s).1
          ≡ (stored C q x s && not (q == path && is_drs_metadata (some x)))
    stored-remove q x h = elim (Bool-cases (is_root_or_empty path)) [
      | inl bad ↦ absurd (unfold remove_single_drs_object_from_data_object in ground arith)
      | inr good ↦ stored-remove_of_reads _ _ refl refl good q x h
    ]
