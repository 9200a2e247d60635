-- ===== src/Update.antt =====
-- Changing the metadata of a DRS object (drs-support/drs_to_irods_service.go):
-- `UpdateDrsObjectMetadataField` and `UpdateDrsObjectAliases`. The read of the object takes fuel;
-- `none` means that it ran out, which the source has no counterpart for.
pub mod Effect
use irods_go_drs.Base.{ℕ, Option, none, some, List, map, if◌then◌else◌}
use irods_go_drs.Base.Exec.{Result, ok, err, reads, ◌>>=◌, ◌>>◌}
use irods_go_drs.Text.{Text, codes, ◌==◌, trim_space}
use irods_go_drs.Model.{Attribute, InternalDrsObject}
use irods_go_drs.Irods.Interface.{Client, Error, alias_field, unsupported_field}
use irods_go_drs.Irods.Actions.{Action, wrap}
use irods_go_drs.Irods.Deletion.{delete_matching}
use irods_go_drs.Metadata.Attributes.{carries, drs_avu_alias_attrib, drs_metadata_attribute_name}
use irods_go_drs.Metadata.Render.{drs_avu, normalized_aliases}
use irods_go_drs.Registry.Create.{add_all}
use irods_go_drs.Registry.Upsert.{set_value}
use irods_go_drs.Compound.Build.{Built}
use irods_go_drs.Compound.Runtime.{Digest}
use irods_go_drs.Resolve.{get_drs_object_by_irods_path}

module _ (C : Client) where
  -- The AVUs of the attribute at a path are deleted, and the action follows.
  unfoldable pub replace : Text → Text → Action C (Unit {0}) → Action C (Unit {0})
  replace path attribute write = do
    metas ← reads (λ s. wrap (C.list_metadata path s))
    delete_matching C (carries attribute) path metas
    write

  -- What follows the checks of the field.
  unfoldable pub set_field : Text → Option Text → Text → Action C (Unit {0})
  set_field path none value s = (err unsupported_field, s)
  set_field path (some attribute) value s =
      replace path attribute (set_value C path attribute value) s

  unfoldable pub set_aliases : Text → List Text → Action C (Unit {0})
  set_aliases path aliases =
      replace path drs_avu_alias_attrib
        (add_all C path (map (drs_avu Attribute.alias) (normalized_aliases aliases)))

  abbrev pub Updated : Type 0
  Updated = Option (Result Error (Unit {0}) × C.State)

  -- An update of the object that was read, if one was.
  abbrev pub update_found :
      Built InternalDrsObject → (Text → Action C (Unit {0})) → C.State → Updated
  update_found none update s = none
  update_found (some (err e)) update s = some (err e, s)
  update_found (some (ok object)) update s = some (update object.absolute_path s)

  abbrev pub checked_field : Text → Text → Text → Action C (Unit {0})
  checked_field field value path s =
      if trim_space field == codes "alias"
      then (err alias_field, s)
      else set_field path (drs_metadata_attribute_name field) value s

  unfoldable pub update_drs_object_metadata_field :
      Digest → ℕ → Text → Text → Text → C.State → Updated
  update_drs_object_metadata_field digest fuel absolute_path field value s =
      update_found (get_drs_object_by_irods_path C digest fuel s absolute_path)
        (checked_field field value) s

  unfoldable pub update_drs_object_aliases : Digest → ℕ → Text → List Text → C.State → Updated
  update_drs_object_aliases digest fuel absolute_path aliases s =
      update_found (get_drs_object_by_irods_path C digest fuel s absolute_path)
        (λ path. set_aliases path aliases) s
