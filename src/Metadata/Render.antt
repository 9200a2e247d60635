-- ===== src/Metadata/Render.antt =====
-- `metadataForObject`: an object's DRS fields as the AVUs that are stored.
use irods_go_drs.Base.{List, [], ◌∷◌, ◌++◌, map, is_nil, if◌then◌else◌}
use irods_go_drs.Text.{Text, codes, trim_space}
use irods_go_drs.Model.{Avu, Attribute, InternalDrsObject}
use irods_go_drs.Metadata.Attributes.{attribute_name, drs_avu_unit}

abbrev pub drs_avu : Attribute → Text → Avu
drs_avu a value = record { name = attribute_name a; value = value; units = drs_avu_unit }

-- The AVU of a field that is written only where the field is not empty.
unfoldable pub optional_avu : Attribute → Text → List Avu
optional_avu a value = if is_nil value then [] else drs_avu a value ∷ []

-- `normalizedAliases`
unfoldable pub normalized_aliases : List Text → List Text
normalized_aliases [] = []
normalized_aliases (alias ∷ aliases) =
    let rest = normalized_aliases aliases in
    if is_nil (trim_space alias) then rest else trim_space alias ∷ rest

unfoldable pub metadata_for_object : InternalDrsObject → List Avu
unfolding optional_avu normalized_aliases
metadata_for_object object =
    drs_avu Attribute.id object.id
    ∷ (optional_avu Attribute.version object.version
        ++ (optional_avu Attribute.mime_type object.mime_type
            ++ (optional_avu Attribute.description object.description
                ++ (map (drs_avu Attribute.alias) (normalized_aliases object.aliases)
                    ++ (if object.is_manifest
                        then drs_avu Attribute.compound_manifest (codes "true") ∷ []
                        else [])))))
