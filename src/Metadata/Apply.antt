-- ===== src/Metadata/Apply.antt =====
-- `ApplyDrsMetadata`: the AVUs of an entry, read into an object in their order.
use irods_go_drs.Base.{true, Option, none, some, List, [], ◌∷◌, ◌++◌, is_nil}
use irods_go_drs.Base.{if◌then◌else◌}
use irods_go_drs.Text.{Text, trim_space}
use irods_go_drs.Model.{Avu, Attribute, InternalDrsObject}
use irods_go_drs.Metadata.Attributes.{attribute_of, has_drs_unit}

-- One case of the `switch`.
unfoldable pub assign : Attribute → Text → InternalDrsObject → InternalDrsObject
assign Attribute.id value object = record object { id = trim_space value }
assign Attribute.version value object = record object { version = trim_space value }
assign Attribute.mime_type value object = record object { mime_type = trim_space value }
assign Attribute.description value object = record object { description = trim_space value }
assign Attribute.alias value object =
    if is_nil (trim_space value)
    then object
    else record object { aliases = object.aliases ++ (trim_space value ∷ []) }
assign Attribute.compound_manifest value object = record object { is_manifest = true }

unfoldable pub apply_one : Option Avu → InternalDrsObject → InternalDrsObject
unfolding assign attribute_of has_drs_unit
apply_one none object = object
apply_one (some meta) object =
    if has_drs_unit meta
    then elim (attribute_of meta.name) [ none ↦ object | some a ↦ assign a meta.value object ]
    else object

unfoldable pub apply_drs_metadata : InternalDrsObject → List (Option Avu) → InternalDrsObject
unfolding apply_one
apply_drs_metadata object [] = object
apply_drs_metadata object (meta ∷ metas) = apply_drs_metadata (apply_one meta object) metas
