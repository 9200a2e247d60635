-- ===== src/Objects/FromEntry.antt =====
-- `internalDrsObjectFromEntry`: an entry and its AVUs as an object.
use irods_go_drs.Base.{false, Option, none, some, List, [], ◌∷◌, is_nil}
use irods_go_drs.Base.{if◌then◌else◌}
use irods_go_drs.Text.{Text, trim_space}
use irods_go_drs.Model.{Avu, Entry, IrodsReplica, InternalReplica, InternalDrsObject}
use irods_go_drs.Metadata.Apply.{apply_drs_metadata}
use irods_go_drs.Objects.Checksum.{checksum_from_replica}

unfoldable pub replicas_from_data_object : List (Option IrodsReplica) → List InternalReplica
unfolding trim_space
replicas_from_data_object [] = []
replicas_from_data_object (none ∷ replicas) = replicas_from_data_object replicas
replicas_from_data_object (some r ∷ replicas) =
    let first : InternalReplica = record {
      resource_name = trim_space r.resource_name;
      resource_hierarchy = trim_space r.resource_hierarchy;
      path = trim_space r.path;
      status = trim_space r.status;
    } in
    first ∷ replicas_from_data_object replicas

-- The object before its metadata is read.
abbrev pub bare_object : Entry → Text → InternalDrsObject
bare_object entry zone = record {
  id = [];
  absolute_path = entry.path;
  irods_zone = zone;
  resource_name = [];
  replicas = [];
  size = entry.size;
  created_time = entry.create_time;
  updated_time = entry.modify_time;
  version = [];
  mime_type = [];
  is_manifest = false;
  checksum = none;
  contents = [];
  description = [];
  aliases = [];
}

-- The resource and the checksum of the first replica, where there is one.
unfoldable pub with_first_replica :
    List (Option IrodsReplica) → InternalDrsObject → InternalDrsObject
unfolding checksum_from_replica trim_space
with_first_replica [] object = object
with_first_replica (none ∷ replicas) object = object
with_first_replica (some r ∷ replicas) object = record object {
  resource_name = trim_space r.resource_name;
  checksum = checksum_from_replica (some r);
}

-- An empty version is that of the checksum, where there is one.
unfoldable pub with_checksum_version : InternalDrsObject → InternalDrsObject
with_checksum_version object = elim object.checksum [
  | none ↦ object
  | some c ↦ if is_nil object.version then record object { version = c.value } else object
]

unfoldable pub with_id_or_path : Text → InternalDrsObject → InternalDrsObject
with_id_or_path path object = if is_nil object.id then record object { id = path } else object

unfoldable pub internal_drs_object_from_entry : Entry → Text → List (Option Avu) → InternalDrsObject
internal_drs_object_from_entry entry zone metas =
    let object = with_id_or_path entry.path (apply_drs_metadata (bare_object entry zone) metas) in
    with_checksum_version (
      with_first_replica entry.replicas
        (record object { replicas = replicas_from_data_object entry.replicas }))
