-- ===== src/Tests/Metadata.antt =====
-- Reading and writing the AVUs of concrete objects.
use irods_go_drs.Base.{◌||◌, ◌≡◌, refl, true, Option, none, some, List, [], ◌∷◌, ◌++◌, map, arith}
use irods_go_drs.Text.{Text, codes, ◌==◌, trim_space, is_space}
use irods_go_drs.Model.{Avu, Attribute, InternalDrsObject}
use irods_go_drs.Metadata.Apply.{apply_drs_metadata}
use irods_go_drs.Metadata.Render.{drs_avu, metadata_for_object}
use irods_go_drs.Metadata.Attributes.{carries, has_drs_unit}
use irods_go_drs.Metadata.Lookup.{drs_id_from_metadata, collection_has_compound_marker}
use irods_go_drs.Metadata.RoundTrip.{
  with_drs_fields, HasTrimmedFields, apply_drs_metadata-metadata_for_object,
}
use irods_go_drs.Metadata.Agreement.{
  AllIds, apply_drs_metadata-drs_id_from_metadata, drs_id_order_matters,
  apply_drs_metadata-is_manifest,
}
use irods_go_drs.Objects.FromEntry.{bare_object}
use irods_go_drs.Tests.Memory.{data_object}

abbrev blank_object : InternalDrsObject
blank_object = bare_object (data_object (codes "/z/c/a") (codes "a")) (codes "z")

abbrev written : InternalDrsObject
written = record blank_object {
  id = codes "id 1";
  version = codes "abc";
  description = codes "a text";
  aliases = codes " one " ∷ codes " " ∷ [];
  is_manifest = true;
}

written-HasTrimmedFields : HasTrimmedFields written
unfolding trim_space is_space
written-HasTrimmedFields = record {
  id = refl;
  version = refl;
  mime_type = refl;
  description = refl;
}

apply_drs_metadata-metadata_for_object_example :
    apply_drs_metadata blank_object (map some (metadata_for_object written))
    ≡ with_drs_fields blank_object written
apply_drs_metadata-metadata_for_object_example =
    apply_drs_metadata-metadata_for_object blank_object written written-HasTrimmedFields

abbrev one_id : List (Option Avu)
one_id =
    none
    ∷ some (drs_avu Attribute.id (codes " x"))
    ∷ some (drs_avu Attribute.alias (codes "y"))
    ∷ []

one_id-AllIds : AllIds (codes "x") one_id
unfolding carries ◌==◌ has_drs_unit trim_space is_space
one_id-AllIds = (λ h. absurd (ground arith), (λ h. refl, (λ h. absurd (ground arith), tt)))

apply_drs_metadata-drs_id_from_metadata_example :
    (apply_drs_metadata blank_object one_id).id ≡ drs_id_from_metadata one_id
apply_drs_metadata-drs_id_from_metadata_example =
    apply_drs_metadata-drs_id_from_metadata (codes "x") one_id blank_object one_id-AllIds refl

-- An id at either end, and a third one between them.
abbrev id_of : Text → Option Avu
id_of value = some (drs_avu Attribute.id value)

drs_id_order_matters_example :
    ((apply_drs_metadata blank_object
        (id_of (codes "x") ∷ (id_of (codes "z") ∷ []) ++ (id_of (codes "y") ∷ []))).id
      ≡ trim_space (codes "y"))
    × (drs_id_from_metadata
          (id_of (codes "x") ∷ (id_of (codes "z") ∷ []) ++ (id_of (codes "y") ∷ []))
        ≡ trim_space (codes "x"))
unfolding carries ◌==◌ has_drs_unit
drs_id_order_matters_example =
    drs_id_order_matters (id_of (codes "x")) (id_of (codes "y")) (id_of (codes "z") ∷ [])
      blank_object refl refl

apply_drs_metadata-is_manifest_example :
    (apply_drs_metadata blank_object one_id).is_manifest
    ≡ (blank_object.is_manifest || collection_has_compound_marker one_id)
apply_drs_metadata-is_manifest_example = apply_drs_metadata-is_manifest one_id blank_object
