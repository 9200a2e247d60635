-- ===== src/Metadata/RoundTrip.antt =====
-- Writing an object's AVUs and reading them back.
use irods_go_drs.Base.{◌≡◌, refl, ◌∙◌, ap, Bool, true, false, ◌||◌, Option, some, List, [], ◌∷◌}
use irods_go_drs.Base.{◌++◌, map, arith, is_nil, if◌then◌else◌, All}
use irods_go_drs.Text.{Text, codes, trim_space, trim_space_idem}
use irods_go_drs.Model.{Avu, Attribute, InternalDrsObject}
use irods_go_drs.Metadata.Attributes.{attribute_of, has_drs_unit}
use irods_go_drs.Metadata.Apply.{assign, apply_one, apply_drs_metadata}
use irods_go_drs.Metadata.Render.{drs_avu, optional_avu, normalized_aliases, metadata_for_object}
use mathlib.Core.List.{map-append, append-nil, append_assoc}

pub apply_drs_metadata-append :
    (o : InternalDrsObject) (xs ys : List (Option Avu))
    → apply_drs_metadata o (xs ++ ys) ≡ apply_drs_metadata (apply_drs_metadata o xs) ys
unfolding apply_drs_metadata
apply_drs_metadata-append o [] ys = refl
apply_drs_metadata-append o (x ∷ xs) ys = apply_drs_metadata-append (apply_one x o) xs ys

-- An AVU that the service wrote sets the field of its attribute.
pub apply_one-drs_avu :
    (a : Attribute) (v : Text) (o : InternalDrsObject)
    → apply_one (some (drs_avu a v)) o ≡ assign a v o
unfolding apply_one attribute_of has_drs_unit
apply_one-drs_avu Attribute.id v o = refl
apply_one-drs_avu Attribute.version v o = refl
apply_one-drs_avu Attribute.mime_type v o = refl
apply_one-drs_avu Attribute.compound_manifest v o = refl
apply_one-drs_avu Attribute.alias v o = refl
apply_one-drs_avu Attribute.description v o = refl

-- The values that are written are trimmed.
abbrev pub IsTrimmed : Text → Type 0
IsTrimmed v = trim_space v ≡ v

assign_all : InternalDrsObject → List Avu → InternalDrsObject
assign_all o avus = apply_drs_metadata o (map some avus)

assign_all-append :
    (o : InternalDrsObject) (xs ys : List Avu)
    → assign_all o (xs ++ ys) ≡ assign_all (assign_all o xs) ys
unfolding assign_all
assign_all-append o xs ys = rw map-append (apply_drs_metadata-append o (map some xs) (map some ys))

assign_all-one :
    (a : Attribute) (v : Text) (o : InternalDrsObject)
    → assign_all o (drs_avu a v ∷ []) ≡ assign a v o
unfolding assign_all apply_drs_metadata
assign_all-one a v o = apply_one-drs_avu a v o

abbrev pub IsValue : Text → Type 0
IsValue v = (trim_space v ≡ v) × (is_nil v ≡ false)

pub normalized_aliases-IsValue : (aliases : List Text) → All IsValue (normalized_aliases aliases)
unfolding normalized_aliases
normalized_aliases-IsValue [] = tt
normalized_aliases-IsValue (a ∷ aliases) =
    ground (arith, trim_space_idem a, normalized_aliases-IsValue aliases)

assign-alias :
    (v : Text) (o : InternalDrsObject)
    → IsValue v
    → assign Attribute.alias v o ≡ record o { aliases = o.aliases ++ (v ∷ []) }
unfolding assign
assign-alias v o h = rw (h.0, h.1)

assign_all-aliases :
    (o : InternalDrsObject) (aliases : List Text)
    → All IsValue aliases
    → assign_all o (map (drs_avu Attribute.alias) aliases)
      ≡ record o { aliases = o.aliases ++ aliases }
unfolding assign_all apply_drs_metadata
assign_all-aliases o [] h = rw append-nil
assign_all-aliases o (a ∷ aliases) h =
    ap (λ o'. assign_all o' (map (drs_avu Attribute.alias) aliases))
      (apply_one-drs_avu Attribute.alias a o ∙ assign-alias a o h.0)
    ∙ assign_all-aliases (record o { aliases = o.aliases ++ (a ∷ []) }) aliases h.1
    ∙ rw append_assoc

-- A field that is empty in the object that was written keeps the value that it had.
abbrev pub or_kept : Text → Text → Text
or_kept v old = if is_nil v then old else v

-- The object `o` with the DRS fields of `p`.
abbrev pub with_drs_fields : InternalDrsObject → InternalDrsObject → InternalDrsObject
with_drs_fields o p = record o {
  id = p.id;
  version = or_kept p.version o.version;
  mime_type = or_kept p.mime_type o.mime_type;
  description = or_kept p.description o.description;
  aliases = o.aliases ++ normalized_aliases p.aliases;
  is_manifest = o.is_manifest || p.is_manifest;
}

-- Its text fields other than the aliases have no space at their ends.
pub record HasTrimmedFields (p : InternalDrsObject) : Type 0 where
  pub id : IsTrimmed p.id
  pub version : IsTrimmed p.version
  pub mime_type : IsTrimmed p.mime_type
  pub description : IsTrimmed p.description

module _ (o : InternalDrsObject) (v : Text) (h : IsTrimmed v) where
  assign_all-id : assign_all o (drs_avu Attribute.id v ∷ []) ≡ record o { id = v }
  unfolding assign_all apply_drs_metadata assign
  assign_all-id = apply_one-drs_avu Attribute.id v o ∙ rw h

  assign_all-version :
      assign_all o (optional_avu Attribute.version v) ≡ record o { version = or_kept v o.version }
  unfolding assign_all apply_drs_metadata assign optional_avu
  assign_all-version = ground (arith, apply_one-drs_avu Attribute.version v o)

  assign_all-mime_type :
      assign_all o (optional_avu Attribute.mime_type v)
      ≡ record o { mime_type = or_kept v o.mime_type }
  unfolding assign_all apply_drs_metadata assign optional_avu
  assign_all-mime_type = ground (arith, apply_one-drs_avu Attribute.mime_type v o)

  assign_all-description :
      assign_all o (optional_avu Attribute.description v)
      ≡ record o { description = or_kept v o.description }
  unfolding assign_all apply_drs_metadata assign optional_avu
  assign_all-description = ground (arith, apply_one-drs_avu Attribute.description v o)

abbrev manifest_avus : Bool → List Avu
manifest_avus marked =
    if marked then drs_avu Attribute.compound_manifest (codes "true") ∷ [] else []

assign_all-manifest :
    (o : InternalDrsObject) (marked : Bool)
    → assign_all o (manifest_avus marked) ≡ record o { is_manifest = o.is_manifest || marked }
unfolding assign_all apply_drs_metadata assign
assign_all-manifest o true =
    apply_one-drs_avu Attribute.compound_manifest (codes "true") o ∙ ground arith
assign_all-manifest o false = ground arith

assign_all-fields :
    (o p : InternalDrsObject)
    → HasTrimmedFields p
    → assign_all o (metadata_for_object p) ≡ with_drs_fields o p
unfolding metadata_for_object
assign_all-fields o p h =
    assign_all-append o (drs_avu Attribute.id p.id ∷ []) _
    ∙ rw (assign_all-id o p.id h.id) (
        rw (assign_all-append, assign_all-version _ p.version h.version)
          (rw (assign_all-append, assign_all-mime_type _ p.mime_type h.mime_type)
            (rw (assign_all-append, assign_all-description _ p.description h.description)
              (rw (assign_all-append, assign_all-aliases _ _ (normalized_aliases-IsValue p.aliases))
                (assign_all-manifest _ p.is_manifest)))))

-- If the id, version, MIME type and description of `p` are trimmed, then reading the AVUs that
-- are written for `p` into any object `o` sets exactly the DRS fields of `p` that are not empty:
-- the id, version, MIME type and description, the trimmed aliases that are not blank behind those
-- of `o`, in order, and the manifest mark if one of the two objects has it.
pub apply_drs_metadata-metadata_for_object :
    (o p : InternalDrsObject)
    → HasTrimmedFields p
    → apply_drs_metadata o (map some (metadata_for_object p)) ≡ with_drs_fields o p
unfolding metadata_for_object
apply_drs_metadata-metadata_for_object o p h = unfold assign_all in assign_all-fields o p h
