-- ===== src/Tests/Registry.antt =====
-- The registry at the client that keeps its AVUs in a list.
use irods_go_drs.Base.{◌≡◌, refl, ◌&&◌, ◌||◌, not, some, List, [], ◌∷◌}
use irods_go_drs.Base.{is_nil}
use irods_go_drs.Base.Exec.{ok}
use irods_go_drs.Text.{Text, codes, ◌==◌, trim_space, is_space}
use irods_go_drs.Model.{Avu}
use irods_go_drs.Irods.Stored.{avu_eq, stored}
use irods_go_drs.Irods.Actions.{irods_zone_for_path}
use irods_go_drs.Irods.Deletion.{delete_matching}
use irods_go_drs.Metadata.Attributes.{
  drs_avu_description_attrib, carries, is_drs_metadata, attribute_of, has_drs_unit,
}
use irods_go_drs.Metadata.Apply.{assign, apply_one, apply_drs_metadata}
use irods_go_drs.Metadata.Render.{metadata_for_object}
use irods_go_drs.Objects.FromEntry.{
  internal_drs_object_from_entry, with_id_or_path, with_first_replica, with_checksum_version,
  replicas_from_data_object,
}
use irods_go_drs.Registry.Guid.{format_guid}
use irods_go_drs.Registry.MimeType.{normalized_mime_type}
use irods_go_drs.Registry.EnsureChecksum.{
  first_checksum, register_checksum, ensure_data_object_checksum,
}
use irods_go_drs.Registry.Create.{
  is_root_or_empty, add_all, new_object, with_checksum, decorate, register,
  create_drs_object_from_data_object,
}
use irods_go_drs.Registry.Create.Effect.{Effect, create-Effect}
use irods_go_drs.Registry.Remove.{
  strip_single, remove_single_drs_object_from_data_object, stored-remove,
}
use irods_go_drs.Registry.Upsert.{new_avu, set_value, upsert_drs_metadata, stored-upsert}
use irods_go_drs.Base.Exec.{err}
use irods_go_drs.Irods.Interface.{already_drs_object}
use irods_go_drs.Model.{Attribute}
use irods_go_drs.Metadata.Apply.{apply_one, assign}
use irods_go_drs.Metadata.Attributes.{attribute_of, has_drs_unit}
use irods_go_drs.Metadata.Lookup.{collection_has_compound_marker}
use irods_go_drs.Metadata.Agreement.{last_id}
use irods_go_drs.Metadata.Render.{drs_avu}
use irods_go_drs.Registry.Create.Succeeds.{create-ok, create-already_drs_object}
use irods_go_drs.Tests.Memory.{
  Rows, rows_of, remove_row, found_entry, memory, memory-IsLawful, data_object, bytes,
}

abbrev a_path : Text
a_path = codes "/z/home/a.txt"

abbrev old_description : Avu
old_description = new_avu drs_avu_description_attrib (codes "old")

abbrev own : Avu
own = record { name = codes "note"; value = codes "mine"; units = [] }

-- An entry with a description and an AVU of its user.
abbrev described : Rows
described = (a_path, old_description) ∷ (a_path, own) ∷ []

remove_succeeds :
    (remove_single_drs_object_from_data_object memory (codes " /z/home/a.txt") described).0 ≡ ok tt
unfolding remove_single_drs_object_from_data_object is_root_or_empty strip_single delete_matching
    found_entry rows_of remove_row internal_drs_object_from_entry irods_zone_for_path
    is_drs_metadata trim_space is_space ◌==◌ avu_eq apply_drs_metadata apply_one assign attribute_of
    has_drs_unit with_id_or_path with_first_replica with_checksum_version replicas_from_data_object
remove_succeeds = refl

stored-remove_example :
    stored memory a_path old_description
      (remove_single_drs_object_from_data_object memory (codes " /z/home/a.txt") described).1
    ≡ (stored memory a_path old_description described
        && not (
            a_path == memory.correct_path (trim_space (codes " /z/home/a.txt"))
            && is_drs_metadata (some old_description)))
stored-remove_example =
    stored-remove memory memory-IsLawful (codes " /z/home/a.txt") described a_path old_description
      remove_succeeds

upsert_succeeds :
    (upsert_drs_metadata memory a_path drs_avu_description_attrib (codes " new ") described).0
    ≡ ok tt
unfolding upsert_drs_metadata set_value delete_matching rows_of remove_row carries trim_space
    is_space ◌==◌ avu_eq has_drs_unit
upsert_succeeds = refl

stored-upsert_example :
    stored memory a_path old_description
      (upsert_drs_metadata memory a_path drs_avu_description_attrib (codes " new ") described).1
    ≡ (stored memory a_path old_description described
          && not (a_path == a_path && carries drs_avu_description_attrib (some old_description))
        || (a_path == a_path
            && (not (is_nil (trim_space (codes " new ")))
                && avu_eq old_description (new_avu drs_avu_description_attrib (codes " new ")))))
stored-upsert_example =
    stored-upsert memory memory-IsLawful a_path drs_avu_description_attrib (codes " new ") a_path
      old_description described upsert_succeeds

abbrev new_id : Text
new_id = codes "01020304-0506-4708-890a-0b0c0d0e0f10"

abbrev given_aliases : List Text
given_aliases = codes " first " ∷ codes "" ∷ []

create_succeeds :
    (create_drs_object_from_data_object memory a_path [] (codes " text ") given_aliases []).0
    ≡ ok new_id
unfolding create_drs_object_from_data_object is_root_or_empty register decorate new_object
    with_checksum add_all found_entry rows_of format_guid ensure_data_object_checksum first_checksum
    register_checksum internal_drs_object_from_entry irods_zone_for_path trim_space is_space ◌==◌
    apply_drs_metadata with_id_or_path with_first_replica with_checksum_version
    replicas_from_data_object normalized_mime_type metadata_for_object
create_succeeds = refl

create-Effect_example :
    Effect memory memory-IsLawful a_path [] (codes " text ") given_aliases [] new_id
create-Effect_example =
    create-Effect memory memory-IsLawful a_path [] (codes " text ") given_aliases [] new_id
      create_succeeds

create-ok_example :
    ((create_drs_object_from_data_object memory a_path [] (codes " text ") given_aliases []).0
      ≡ ok (format_guid bytes))
    × Effect memory memory-IsLawful a_path [] (codes " text ") given_aliases [] (format_guid bytes)
unfolding is_root_or_empty found_entry rows_of collection_has_compound_marker last_id trim_space
    is_space ◌==◌
create-ok_example =
    create-ok memory a_path [] (codes " text ") given_aliases [] memory-IsLawful
      (data_object a_path (codes "a.txt")) [] bytes refl refl refl refl refl refl tt (λ m t. refl)

-- An entry whose DRS id is its own path is registered anew.
abbrev self_named : Rows
self_named = (a_path, drs_avu Attribute.id a_path) ∷ []

self_named_registered :
    ((create_drs_object_from_data_object memory a_path [] [] [] self_named).0
      ≡ ok (format_guid bytes))
    × Effect memory memory-IsLawful a_path [] [] [] self_named (format_guid bytes)
unfolding is_root_or_empty found_entry rows_of collection_has_compound_marker last_id carries
    has_drs_unit trim_space is_space ◌==◌
self_named_registered =
    create-ok memory a_path [] [] [] self_named memory-IsLawful (data_object a_path (codes "a.txt"))
      (some (drs_avu Attribute.id a_path) ∷ []) bytes refl refl refl refl refl refl tt (λ m t. refl)

abbrev taken : Rows
taken = (a_path, drs_avu Attribute.id (codes "x")) ∷ []

create-already_drs_object_example :
    create_drs_object_from_data_object memory a_path [] [] [] taken
    ≡ (err (already_drs_object a_path), taken)
unfolding is_root_or_empty found_entry rows_of collection_has_compound_marker last_id carries
    has_drs_unit trim_space is_space ◌==◌
create-already_drs_object_example =
    create-already_drs_object memory a_path [] [] [] taken (data_object a_path (codes "a.txt"))
      (some (drs_avu Attribute.id (codes "x")) ∷ []) refl refl refl refl refl
