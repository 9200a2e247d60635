-- ===== src/Registry/Create.antt =====
-- `CreateDrsObjectFromDataObject`
pub mod Effect
pub mod Succeeds
use irods_go_drs.Base.{
  Bool, true, false, ◌&&◌, ◌||◌, not, Option, none, some, List, [], ◌∷◌, is_nil,
}
use irods_go_drs.Base.{if◌then◌else◌}
use irods_go_drs.Base.Exec.{Result, ok, err, pure, raise, reads, ◌>>=◌, ◌>>◌}
use irods_go_drs.Text.{Text, codes, ◌==◌, trim_space}
use irods_go_drs.Model.{Avu, Entry, InternalChecksum, InternalDrsObject}
use irods_go_drs.Irods.Interface.{Client, Error, path_required, no_entry, already_drs_object}
use irods_go_drs.Irods.Actions.{Action, call, wrap, irods_zone_for_path}
use irods_go_drs.Metadata.Render.{metadata_for_object, normalized_aliases}
use irods_go_drs.Objects.FromEntry.{bare_object, internal_drs_object_from_entry}
use irods_go_drs.Registry.Guid.{format_guid}
use irods_go_drs.Registry.MimeType.{normalized_mime_type}
use irods_go_drs.Registry.EnsureChecksum.{ensure_data_object_checksum}

-- `correctPath == "/" || correctPath == ""`
unfoldable pub is_root_or_empty : Text → Bool
unfolding ◌==◌
is_root_or_empty path = path == codes "/" || is_nil path

module _ (C : Client) where
  -- The loop over `filesystem.AddMetadata`.
  unfoldable pub add_all : Text → List Avu → Action C (Unit {0})
  add_all path [] = pure tt
  add_all path (meta ∷ metas) = call C (C.add_metadata path meta) >> add_all path metas

  -- The object that is written, without its checksum.
  unfoldable pub new_object :
      Text → Text → Text → Text → List Text → Entry → C.State → InternalDrsObject
  unfolding normalized_mime_type normalized_aliases irods_zone_for_path
  new_object drs_id path mime_type description aliases entry s =
      record (bare_object entry (irods_zone_for_path C path s)) {
        id = drs_id;
        absolute_path = path;
        mime_type = normalized_mime_type C.media_type_by_extension path mime_type;
        description = trim_space description;
        aliases = normalized_aliases aliases;
      }

  unfoldable pub with_checksum : Option InternalChecksum → InternalDrsObject → InternalDrsObject
  with_checksum none object = record object { checksum = none }
  with_checksum (some c) object = record object { checksum = some c; version = c.value }

  -- What follows the check that the entry is no DRS object yet.
  unfoldable pub decorate : Text → Text → Text → List Text → Entry → Action C Text
  decorate path mime_type description aliases entry = do
    bytes ← call C C.random_bytes
    let drs_id = format_guid bytes
    object ← reads (λ s. ok (new_object drs_id path mime_type description aliases entry s))
    checksum ← ensure_data_object_checksum C path entry.replicas
    add_all path (metadata_for_object (with_checksum checksum object))
    pure drs_id

  -- The entry is registered unless its AVUs make it a DRS object.
  unfoldable pub register :
      Text → Text → Text → List Text → List (Option Avu) → Option Entry → Action C Text
  register path mime_type description aliases metas none s = (err no_entry, s)
  register path mime_type description aliases metas (some entry) s =
      let existing = internal_drs_object_from_entry entry (irods_zone_for_path C path s) metas in
      if not (existing.id == path) || existing.is_manifest
      then (err (already_drs_object path), s)
      else decorate path mime_type description aliases entry s

  unfoldable pub create_drs_object_from_data_object : Text → Text → Text → List Text → Action C Text
  create_drs_object_from_data_object absolute_path mime_type description aliases =
      let path = C.correct_path (trim_space absolute_path) in
      if is_root_or_empty path then raise path_required else do
        entry ← reads (λ s. wrap (C.stat_file path s))
        metas ← reads (λ s. wrap (C.list_metadata path s))
        register path mime_type description aliases metas entry
