-- ===== src/Metadata/Attributes.antt =====
-- The attribute names of the service, and the test for an AVU that belongs to it.
use irods_go_drs.Base.{Bool, false, ◌&&◌, ◌||◌, Option, none, some, is_nil, if◌then◌else◌}
use irods_go_drs.Base.{◌≡◌, refl}
use irods_go_drs.Text.{Text, codes, ◌==◌, equal_fold, trim_space}
use irods_go_drs.Model.{Avu, Attribute}

abbrev pub drs_avu_unit : Text
drs_avu_unit = codes "iRODS:DRS"

abbrev pub drs_id_avu_attrib : Text
drs_id_avu_attrib = codes "iRODS:DRS:ID"

abbrev pub drs_avu_version_attrib : Text
drs_avu_version_attrib = codes "iRODS:DRS:VERSION"

abbrev pub drs_avu_mime_type_attrib : Text
drs_avu_mime_type_attrib = codes "iRODS:DRS:MIME_TYPE"

abbrev pub drs_avu_compound_manifest_attrib : Text
drs_avu_compound_manifest_attrib = codes "iRODS:DRS:COMPOUND_MANIFEST"

abbrev pub drs_avu_alias_attrib : Text
drs_avu_alias_attrib = codes "iRODS:DRS:ALIAS"

abbrev pub drs_avu_description_attrib : Text
drs_avu_description_attrib = codes "iRODS:DRS:DESCRIPTION"

-- The name that each attribute is stored under.
abbrev pub attribute_name : Attribute → Text
attribute_name Attribute.id = drs_id_avu_attrib
attribute_name Attribute.version = drs_avu_version_attrib
attribute_name Attribute.mime_type = drs_avu_mime_type_attrib
attribute_name Attribute.compound_manifest = drs_avu_compound_manifest_attrib
attribute_name Attribute.alias = drs_avu_alias_attrib
attribute_name Attribute.description = drs_avu_description_attrib

-- The cases of the `switch meta.Name` statements.
unfoldable pub attribute_of : Text → Option Attribute
unfolding ◌==◌
attribute_of name =
    if name == drs_id_avu_attrib
    then some Attribute.id
    else if name == drs_avu_version_attrib
    then some Attribute.version
    else if name == drs_avu_mime_type_attrib
    then some Attribute.mime_type
    else if name == drs_avu_description_attrib
    then some Attribute.description
    else if name == drs_avu_alias_attrib
    then some Attribute.alias
    else if name == drs_avu_compound_manifest_attrib
    then some Attribute.compound_manifest
    else none

-- `meta.Units == "" || strings.EqualFold(meta.Units, DrsAvuUnit)`
unfoldable pub has_drs_unit : Avu → Bool
unfolding equal_fold
has_drs_unit meta = is_nil meta.units || equal_fold meta.units drs_avu_unit

-- `isDrsMetadata`
unfoldable pub is_drs_metadata : Option Avu → Bool
unfolding attribute_of has_drs_unit
is_drs_metadata none = false
is_drs_metadata (some meta) = elim (attribute_of meta.name) [
  | none ↦ false
  | some a ↦ has_drs_unit meta
]

-- The test that stands in the loops over the AVUs of one attribute: the AVU is there, carries the
-- attribute and has a DRS unit.
unfoldable pub carries : Text → Option Avu → Bool
unfolding ◌==◌ has_drs_unit
carries attribute_name none = false
carries attribute_name (some meta) = meta.name == attribute_name && has_drs_unit meta

-- `drsMetadataAttributeName`; `none` is the unsupported field's error.
unfoldable pub drs_metadata_attribute_name : Text → Option Text
unfolding ◌==◌ trim_space
drs_metadata_attribute_name field =
    let f = trim_space field in
    if f == codes "mimeType" || (f == codes "mime-type" || f == codes "mime")
    then some drs_avu_mime_type_attrib
    else if f == codes "version"
    then some drs_avu_version_attrib
    else if f == codes "description"
    then some drs_avu_description_attrib
    else if f == codes "alias"
    then some drs_avu_alias_attrib
    else none

-- Each attribute is recognised by the name that it is stored under.
pub attribute_of-attribute_name : (a : Attribute) → attribute_of (attribute_name a) ≡ some a
unfolding attribute_of
attribute_of-attribute_name Attribute.id = refl
attribute_of-attribute_name Attribute.version = refl
attribute_of-attribute_name Attribute.mime_type = refl
attribute_of-attribute_name Attribute.compound_manifest = refl
attribute_of-attribute_name Attribute.alias = refl
attribute_of-attribute_name Attribute.description = refl
