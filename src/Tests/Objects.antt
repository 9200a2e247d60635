-- ===== src/Tests/Objects.antt =====
-- Objects built from concrete entries.
use irods_go_drs.Base.{◌≡◌, ◌||◌, not, Option, none, some, List, [], ◌∷◌, is_nil, if◌then◌else◌}
use irods_go_drs.Text.{codes}
use irods_go_drs.Model.{Avu, Entry, Attribute}
use irods_go_drs.Metadata.Render.{drs_avu}
use irods_go_drs.Metadata.Lookup.{has_matching_drs_id_metadata}
use irods_go_drs.Metadata.Agreement.{last_id}
use irods_go_drs.Objects.FromEntry.{internal_drs_object_from_entry}
use irods_go_drs.Objects.Recognised.{internal_drs_object_from_entry-id, recognised_iff}
use irods_go_drs.Tests.Memory.{data_object}

abbrev entry : Entry
entry = data_object (codes "/z/c/a") (codes "a")

abbrev metas : List (Option Avu)
metas =
    some (drs_avu Attribute.id (codes "x")) ∷ none ∷ some (drs_avu Attribute.id (codes " ")) ∷ []

internal_drs_object_from_entry-id_example :
    (internal_drs_object_from_entry entry (codes "z") metas).id
    ≡ (if is_nil (last_id [] metas) then codes "/z/c/a" else last_id [] metas)
internal_drs_object_from_entry-id_example =
    internal_drs_object_from_entry-id entry (codes "z") metas

recognised_iff_example :
    has_matching_drs_id_metadata metas (internal_drs_object_from_entry entry (codes "z") metas).id
    ≡ (not (is_nil (last_id [] metas)) || has_matching_drs_id_metadata metas (codes "/z/c/a"))
recognised_iff_example = recognised_iff entry (codes "z") metas
