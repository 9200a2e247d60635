-- ===== src/Metadata/Lookup.antt =====
-- The readers that look for one attribute among the AVUs of an entry.
use irods_go_drs.Base.{Bool, false, ◌&&◌, ◌||◌, not, Option, none, some, List, [], ◌∷◌}
use irods_go_drs.Base.{is_nil, if◌then◌else◌}
use irods_go_drs.Text.{Text, ◌==◌, trim_space}
use irods_go_drs.Model.{Avu}
use irods_go_drs.Metadata.Attributes.{
  carries, is_drs_metadata, drs_id_avu_attrib, drs_avu_alias_attrib, drs_avu_description_attrib,
  drs_avu_compound_manifest_attrib,
}

abbrev pub value_of : Option Avu → Text
value_of none = []
value_of (some meta) = trim_space meta.value

-- `drsIDFromMetadata`: the first DRS id AVU decides, blank or not.
unfoldable pub drs_id_from_metadata : List (Option Avu) → Text
unfolding carries
drs_id_from_metadata [] = []
drs_id_from_metadata (meta ∷ metas) =
    let rest = drs_id_from_metadata metas in
    if carries drs_id_avu_attrib meta then value_of meta else rest

-- `collectionHasCompoundMarker`
unfoldable pub collection_has_compound_marker : List (Option Avu) → Bool
unfolding carries
collection_has_compound_marker [] = false
collection_has_compound_marker (meta ∷ metas) =
    carries drs_avu_compound_manifest_attrib meta || collection_has_compound_marker metas

-- The first value of the attribute that is not blank: the loop of `aliasFromMetadata` and of
-- `descriptionFromMetadata`.
unfoldable pub first_value : Text → List (Option Avu) → Text
unfolding carries
first_value attribute_name [] = []
first_value attribute_name (meta ∷ metas) =
    let rest = first_value attribute_name metas in
    if carries attribute_name meta && not (is_nil (value_of meta)) then value_of meta else rest

unfoldable pub alias_from_metadata : List (Option Avu) → Text
unfolding first_value
alias_from_metadata = first_value drs_avu_alias_attrib

unfoldable pub description_from_metadata : List (Option Avu) → Text
unfolding first_value
description_from_metadata = first_value drs_avu_description_attrib

-- `hasDrsMetadataWithValue`
unfoldable pub has_drs_metadata_with_value : List (Option Avu) → Text → Bool
unfolding carries
has_drs_metadata_with_value [] attribute_name = false
has_drs_metadata_with_value (meta ∷ metas) attribute_name =
    carries attribute_name meta && not (is_nil (value_of meta))
    || has_drs_metadata_with_value metas attribute_name

-- `hasMatchingDrsIDMetadata`
unfoldable pub has_matching_drs_id_metadata : List (Option Avu) → Text → Bool
unfolding carries ◌==◌
has_matching_drs_id_metadata [] drs_id = false
has_matching_drs_id_metadata (meta ∷ metas) drs_id =
    carries drs_id_avu_attrib meta && value_of meta == drs_id
    || has_matching_drs_id_metadata metas drs_id

-- `CompoundManifestAVU` of each AVU that is not the service's own: `nonDrsMetadataFromMetas`.
unfoldable pub non_drs_metadata_from_metas : List (Option Avu) → List Avu
unfolding is_drs_metadata
non_drs_metadata_from_metas [] = []
non_drs_metadata_from_metas (none ∷ metas) = non_drs_metadata_from_metas metas
non_drs_metadata_from_metas (some meta ∷ metas) =
    let rest = non_drs_metadata_from_metas metas in
    let kept : Avu = record {
      name = trim_space meta.name;
      value = trim_space meta.value;
      units = trim_space meta.units;
    } in
    if is_drs_metadata (some meta) then rest else kept ∷ rest
