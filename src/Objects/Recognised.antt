-- ===== src/Objects/Recognised.antt =====
-- Which entries are recognised as DRS objects.
use irods_go_drs.Base.{◌≡◌, refl, ◌∙◌, ◌||◌, not, Option, none, some}
use irods_go_drs.Base.{List, [], ◌∷◌, arith, is_nil, if◌then◌else◌}
use irods_go_drs.Text.{Text}
use irods_go_drs.Model.{Avu, Entry, InternalDrsObject, IrodsReplica}
use irods_go_drs.Metadata.Apply.{assign, apply_one, apply_drs_metadata}
use irods_go_drs.Metadata.Lookup.{collection_has_compound_marker, has_matching_drs_id_metadata}
use irods_go_drs.Metadata.Agreement.{
  last_id, apply_drs_metadata-id, apply_drs_metadata-is_manifest, last_id-matches,
}
use irods_go_drs.Objects.FromEntry.{
  bare_object, replicas_from_data_object, with_first_replica, with_checksum_version,
  with_id_or_path, internal_drs_object_from_entry,
}

with_first_replica-id :
    (replicas : List (Option IrodsReplica)) (o : InternalDrsObject)
    → (with_first_replica replicas o).id ≡ o.id
unfolding with_first_replica
with_first_replica-id [] o = refl
with_first_replica-id (none ∷ replicas) o = refl
with_first_replica-id (some r ∷ replicas) o = refl

with_first_replica-is_manifest :
    (replicas : List (Option IrodsReplica)) (o : InternalDrsObject)
    → (with_first_replica replicas o).is_manifest ≡ o.is_manifest
unfolding with_first_replica
with_first_replica-is_manifest [] o = refl
with_first_replica-is_manifest (none ∷ replicas) o = refl
with_first_replica-is_manifest (some r ∷ replicas) o = refl

with_first_replica-absolute_path :
    (replicas : List (Option IrodsReplica)) (o : InternalDrsObject)
    → (with_first_replica replicas o).absolute_path ≡ o.absolute_path
unfolding with_first_replica
with_first_replica-absolute_path [] o = refl
with_first_replica-absolute_path (none ∷ replicas) o = refl
with_first_replica-absolute_path (some r ∷ replicas) o = refl

with_checksum_version-absolute_path :
    (o : InternalDrsObject) → (with_checksum_version o).absolute_path ≡ o.absolute_path
unfolding with_checksum_version
with_checksum_version-absolute_path o = ground arith

apply_one-absolute_path :
    (meta : Option Avu) (o : InternalDrsObject) → (apply_one meta o).absolute_path ≡ o.absolute_path
unfolding apply_one assign
apply_one-absolute_path none o = refl
apply_one-absolute_path (some meta) o = ground arith

apply_drs_metadata-absolute_path :
    (metas : List (Option Avu)) (o : InternalDrsObject)
    → (apply_drs_metadata o metas).absolute_path ≡ o.absolute_path
unfolding apply_drs_metadata
apply_drs_metadata-absolute_path [] o = refl
apply_drs_metadata-absolute_path (meta ∷ metas) o =
    apply_drs_metadata-absolute_path metas (apply_one meta o) ∙ apply_one-absolute_path meta o

with_checksum_version-keeps :
    (o : InternalDrsObject)
    → ((with_checksum_version o).id ≡ o.id)
      × ((with_checksum_version o).is_manifest ≡ o.is_manifest)
unfolding with_checksum_version
with_checksum_version-keeps o = ground arith

module _ (entry : Entry) (zone : Text) (metas : List (Option Avu)) where
  abbrev object : InternalDrsObject
  object = internal_drs_object_from_entry entry zone metas

  -- The stages of the construction.
  abbrev named : InternalDrsObject
  named = with_id_or_path entry.path (apply_drs_metadata (bare_object entry zone) metas)

  abbrev replicated : InternalDrsObject
  replicated = record named { replicas = replicas_from_data_object entry.replicas }

  -- The id of the object that is built for an entry is the trimmed value of the last DRS id AVU, or
  -- the entry's path where that is blank or missing.
  pub internal_drs_object_from_entry-id :
      object.id ≡ (if is_nil (last_id [] metas) then entry.path else last_id [] metas)
  unfolding internal_drs_object_from_entry with_id_or_path
  internal_drs_object_from_entry-id = ground (
    arith,
    with_checksum_version-keeps (with_first_replica entry.replicas replicated),
    with_first_replica-id entry.replicas replicated,
    apply_drs_metadata-id metas (bare_object entry zone),
  )

  pub internal_drs_object_from_entry-is_manifest :
      object.is_manifest ≡ collection_has_compound_marker metas
  unfolding internal_drs_object_from_entry with_id_or_path
  internal_drs_object_from_entry-is_manifest = ground (
    arith,
    with_checksum_version-keeps (with_first_replica entry.replicas replicated),
    with_first_replica-is_manifest entry.replicas replicated,
    apply_drs_metadata-is_manifest metas (bare_object entry zone),
  )

  pub internal_drs_object_from_entry-absolute_path : object.absolute_path ≡ entry.path
  unfolding internal_drs_object_from_entry with_id_or_path
  internal_drs_object_from_entry-absolute_path = ground (
    arith,
    with_checksum_version-absolute_path (with_first_replica entry.replicas replicated),
    with_first_replica-absolute_path entry.replicas replicated,
    apply_drs_metadata-absolute_path metas (bare_object entry zone),
  )

  -- An entry is recognised as a DRS object exactly if its last DRS id AVU is not blank, or one of
  -- its DRS id AVUs has the entry's own path for its value.
  pub recognised_iff :
      has_matching_drs_id_metadata metas object.id
      ≡ (not (is_nil (last_id [] metas)) || has_matching_drs_id_metadata metas entry.path)
  recognised_iff =
      ground
        (arith, internal_drs_object_from_entry-id, last_id-matches metas [] (last_id [] metas) refl)
