-- ===== src/Tests/Update.antt =====
-- An update of the aliases of `/z/home/a.txt`.
use irods_go_drs.Base.{◌≡◌, refl, some, List, [], ◌∷◌, map}
use irods_go_drs.Base.Exec.{ok}
use irods_go_drs.Text.{Text, codes, ◌==◌, trim_space, is_space}
use irods_go_drs.Model.{Attribute}
use irods_go_drs.Irods.Stored.{avu_eq}
use irods_go_drs.Irods.Actions.{stat_entry, irods_zone_for_path}
use irods_go_drs.Irods.Deletion.{delete_matching}
use irods_go_drs.Irods.Replicas.{entry_with_all_replicas}
use irods_go_drs.Metadata.Attributes.{carries, has_drs_unit, attribute_of, drs_avu_alias_attrib}
use irods_go_drs.Metadata.Apply.{assign, apply_one, apply_drs_metadata}
use irods_go_drs.Metadata.Lookup.{has_matching_drs_id_metadata}
use irods_go_drs.Metadata.Render.{drs_avu, normalized_aliases}
use irods_go_drs.Objects.FromEntry.{
  internal_drs_object_from_entry, with_id_or_path, with_first_replica, with_checksum_version,
  replicas_from_data_object,
}
use irods_go_drs.Registry.Create.{is_root_or_empty, add_all}
use irods_go_drs.Compound.Runtime.{Digest}
use irods_go_drs.Resolve.{
  get_drs_object_by_irods_path, drs_object_from_entry, drs_object_from_entry_with_metadata,
  identified,
}
use irods_go_drs.Update.{update_drs_object_aliases, set_aliases, replace}
use irods_go_drs.Update.Effect.{
  Resolved, IsReplaced, given, AddsAliases, update_drs_object_aliases_lem,
}
use irods_go_drs.Tests.Memory.{Rows, memory, memory-IsLawful, found_entry, rows_of, remove_row}

abbrev a_path : Text
a_path = codes "/z/home/a.txt"

abbrev digest : Digest
digest = record { marshal = λ m. []; md5_sum = λ bytes. bytes }

abbrev before : Rows
before =
    (a_path, drs_avu Attribute.id (codes "x"))
    ∷ (a_path, drs_avu Attribute.alias (codes "old"))
    ∷ []

abbrev after : Rows
after =
    (a_path, drs_avu Attribute.alias (codes "new"))
    ∷ (a_path, drs_avu Attribute.id (codes "x"))
    ∷ []

abbrev aliases : List Text
aliases = codes " new" ∷ codes "" ∷ []

update_succeeds :
    update_drs_object_aliases memory digest 1 a_path aliases before ≡ some (ok tt, after)
unfolding update_drs_object_aliases set_aliases replace add_all get_drs_object_by_irods_path
    drs_object_from_entry drs_object_from_entry_with_metadata identified is_root_or_empty stat_entry
    irods_zone_for_path entry_with_all_replicas has_matching_drs_id_metadata
    internal_drs_object_from_entry with_id_or_path with_first_replica with_checksum_version
    replicas_from_data_object apply_drs_metadata apply_one assign attribute_of delete_matching
    normalized_aliases found_entry rows_of remove_row carries trim_space is_space ◌==◌ avu_eq
    has_drs_unit
update_succeeds = refl

update_drs_object_aliases_lem_example :
    Resolved memory memory-IsLawful digest 1 a_path before after (λ path.
      IsReplaced memory memory-IsLawful path drs_avu_alias_attrib
        (map (drs_avu Attribute.alias) (normalized_aliases aliases))
        before
        after
      × ((u : Rows) × AddsAliases memory memory-IsLawful path
            (given memory memory-IsLawful aliases)
            u
            after))
update_drs_object_aliases_lem_example =
    update_drs_object_aliases_lem memory memory-IsLawful digest 1 a_path before after aliases
      update_succeeds
