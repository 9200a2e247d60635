-- ===== src/Registry/Complete.antt =====
-- `ensureDataObjectDrsCompleteness` of drs-support/compound_create.go: the MIME type and the version of a
-- data object that has none yet.
use irods_go_drs.Base.{Option, none, some, List, [], is_nil, if◌then◌else◌}
use irods_go_drs.Base.Exec.{Result, err, pure, reads, ◌>>=◌, ◌>>◌}
use irods_go_drs.Text.{Text, trim_space}
use irods_go_drs.Model.{Avu, Entry, InternalChecksum}
use irods_go_drs.Irods.Interface.{Client, Error, nil_dereference}
use irods_go_drs.Irods.Actions.{Action, call, wrap, or_empty, stat_entry}
use irods_go_drs.Irods.Replicas.{entry_with_all_replicas}
use irods_go_drs.Metadata.Attributes.{
  drs_avu_unit, drs_avu_mime_type_attrib, drs_avu_version_attrib,
}
use irods_go_drs.Metadata.Lookup.{has_drs_metadata_with_value}
use irods_go_drs.Registry.MimeType.{normalized_mime_type}
use irods_go_drs.Registry.EnsureChecksum.{ensure_data_object_checksum}

abbrev pub avu_of : Text → Text → Avu
avu_of attribute value = record { name = attribute; value = value; units = drs_avu_unit }

module _ (C : Client) (path : Text) where
  abbrev pub derived_mime_type : Text
  derived_mime_type = normalized_mime_type C.media_type_by_extension path []

  -- The first part: a MIME type for an object without one.
  unfoldable pub complete_mime_type : List (Option Avu) → Action C (Unit {0})
  complete_mime_type metas =
      if has_drs_metadata_with_value metas drs_avu_mime_type_attrib
      then pure tt
      else if is_nil derived_mime_type
      then pure tt
      else call C (C.add_metadata path (avu_of drs_avu_mime_type_attrib derived_mime_type))

  -- A nil entry is kept by `entryWithAllReplicas`, and its `ToDataObject` panics.
  unfoldable pub with_replicas : Option Entry → C.State → Result Error Entry
  with_replicas none s = err nil_dereference
  with_replicas (some entry) s = entry_with_all_replicas C entry s

  unfoldable pub write_version : Option InternalChecksum → Action C (Unit {0})
  write_version none = pure tt
  write_version (some c) =
      if is_nil (trim_space c.value)
      then pure tt
      else call C (C.add_metadata path (avu_of drs_avu_version_attrib c.value))

  -- The checksum of the object becomes its version.
  unfoldable pub version_from_checksum : Action C (Unit {0})
  version_from_checksum = do
    found ← reads (λ s. wrap (stat_entry C path s))
    entry ← reads (with_replicas found)
    checksum ← ensure_data_object_checksum C path entry.replicas
    write_version checksum

  unfoldable pub complete_version : List (Option Avu) → Action C (Unit {0})
  complete_version metas =
      if has_drs_metadata_with_value metas drs_avu_version_attrib
      then pure tt
      else version_from_checksum

  unfoldable pub ensure_data_object_drs_completeness : Action C (Unit {0})
  ensure_data_object_drs_completeness = do
    metas ← reads (λ s. or_empty (C.list_metadata path s))
    complete_mime_type metas
    complete_version metas
