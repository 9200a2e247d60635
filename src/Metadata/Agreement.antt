-- ===== src/Metadata/Agreement.antt =====
-- The readers of AVUs against each other: `ApplyDrsMetadata` keeps the last DRS id of a list, where
-- `drsIDFromMetadata` takes the first.
use irods_go_drs.Base.{◌≡◌, refl, ◌∙◌, sym, subst, true, ◌||◌, Option, none, some}
use irods_go_drs.Base.{List, [], ◌∷◌, ◌++◌, arith, if◌then◌else◌, All, ◌⊎◌, inl}
use irods_go_drs.Text.{Text, ◌==◌, ==_iff}
use irods_go_drs.Model.{Avu, Attribute, InternalDrsObject}
use irods_go_drs.Metadata.Attributes.{
  attribute_of, carries, drs_id_avu_attrib, drs_avu_compound_manifest_attrib,
  attribute_of-attribute_name,
}
use irods_go_drs.Metadata.Apply.{assign, apply_one, apply_drs_metadata}
use irods_go_drs.Metadata.Lookup.{
  value_of, drs_id_from_metadata, collection_has_compound_marker, has_matching_drs_id_metadata,
}

-- The trimmed value of the last AVU that carries the DRS id, or `start` if there is none.
unfoldable pub last_id : Text → List (Option Avu) → Text
last_id start [] = start
last_id start (meta ∷ metas) =
    last_id (if carries drs_id_avu_attrib meta then value_of meta else start) metas

apply_one-id :
    (meta : Option Avu) (o : InternalDrsObject)
    → (apply_one meta o).id ≡ (if carries drs_id_avu_attrib meta then value_of meta else o.id)
unfolding apply_one carries
apply_one-id none o = refl
apply_one-id (some meta) o = unfold attribute_of assign in ground arith

-- The id that `ApplyDrsMetadata` leaves is that of the last AVU with the DRS id attribute and a DRS
-- unit.
pub apply_drs_metadata-id :
    (metas : List (Option Avu)) (o : InternalDrsObject)
    → (apply_drs_metadata o metas).id ≡ last_id o.id metas
unfolding apply_drs_metadata last_id
apply_drs_metadata-id [] o = refl
apply_drs_metadata-id (meta ∷ metas) o =
    ground (arith, apply_one-id meta o, apply_drs_metadata-id metas (apply_one meta o))

attribute_of-compound :
    (name : Text)
    → name == drs_avu_compound_manifest_attrib ≡ true
    → attribute_of name ≡ some Attribute.compound_manifest
attribute_of-compound name h =
    subst (λ n. attribute_of n ≡ some Attribute.compound_manifest)
      (sym ((==_iff name drs_avu_compound_manifest_attrib).0 h))
      (attribute_of-attribute_name Attribute.compound_manifest)

apply_one-is_manifest :
    (meta : Option Avu) (o : InternalDrsObject)
    → (apply_one meta o).is_manifest
      ≡ (o.is_manifest || carries drs_avu_compound_manifest_attrib meta)
unfolding apply_one carries
apply_one-is_manifest none o = ground arith
apply_one-is_manifest (some meta) o =
    unfold assign attribute_of in ground (arith, attribute_of-compound meta.name)

-- Reading AVUs into an object leaves it marked as a manifest exactly if it was marked before or one
-- of the AVUs is a compound marker.
pub apply_drs_metadata-is_manifest :
    (metas : List (Option Avu)) (o : InternalDrsObject)
    → (apply_drs_metadata o metas).is_manifest
      ≡ (o.is_manifest || collection_has_compound_marker metas)
unfolding apply_drs_metadata collection_has_compound_marker
apply_drs_metadata-is_manifest [] o = ground arith
apply_drs_metadata-is_manifest (meta ∷ metas) o =
    ground
      (arith, apply_one-is_manifest meta o, apply_drs_metadata-is_manifest metas (apply_one meta o))

-- An id that is not blank is found again by the test of `drsObjectFromEntryWithMetadata`.
pub last_id-matches :
    (metas : List (Option Avu)) (start v : Text)
    → last_id start metas ≡ v
    → (start ≡ v) ⊎ (has_matching_drs_id_metadata metas v ≡ true)
unfolding last_id has_matching_drs_id_metadata
last_id-matches [] start v h = inl h
last_id-matches (meta ∷ metas) start v h = ground (
  arith,
  ==_iff (value_of meta) v,
  last_id-matches metas (if carries drs_id_avu_attrib meta then value_of meta else start) v h,
)

-- The AVUs with the DRS id attribute and a DRS unit all have the trimmed value `v`.
abbrev pub AllIds : Text → List (Option Avu) → Type 0
AllIds v = All (λ meta. carries drs_id_avu_attrib meta ≡ true → value_of meta ≡ v)

last_id-eq_start_or :
    (metas : List (Option Avu)) (v start : Text)
    → AllIds v metas
    → (start ≡ v)
    → last_id start metas ≡ v
unfolding last_id
last_id-eq_start_or [] v start h e = e
last_id-eq_start_or (meta ∷ metas) v start h e = ground (
  arith,
  h.0,
  last_id-eq_start_or metas v (if carries drs_id_avu_attrib meta then value_of meta else start) h.1,
)

last_id-first :
    (v : Text) (metas : List (Option Avu))
    → AllIds v metas
    → last_id [] metas ≡ drs_id_from_metadata metas
unfolding last_id drs_id_from_metadata
last_id-first v [] h = refl
last_id-first v (meta ∷ metas) h =
    ground (arith, h.0, last_id-first v metas h.1, last_id-eq_start_or metas v (value_of meta) h.1)

-- If all AVUs that carry the DRS id agree on its trimmed value, then the id that
-- `ApplyDrsMetadata` leaves in an object with an empty id is the one that `drsIDFromMetadata`
-- returns.
pub apply_drs_metadata-drs_id_from_metadata :
    (v : Text) (metas : List (Option Avu)) (o : InternalDrsObject)
    → AllIds v metas
    → o.id ≡ []
    → (apply_drs_metadata o metas).id ≡ drs_id_from_metadata metas
apply_drs_metadata-drs_id_from_metadata v metas o h e =
    apply_drs_metadata-id metas o ∙ rw e (last_id-first v metas h)

last_id_of_end :
    (start : Text) (metas : List (Option Avu)) (end : Option Avu)
    → carries drs_id_avu_attrib end ≡ true
    → last_id start (metas ++ (end ∷ [])) ≡ value_of end
unfolding last_id
last_id_of_end start [] end c = ground arith
last_id_of_end start (meta ∷ metas) end c =
    last_id_of_end (if carries drs_id_avu_attrib meta then value_of meta else start) metas end c

-- Where the first and the last AVU of a list both have the DRS id attribute and a DRS unit, whatever
-- stands between them, `ApplyDrsMetadata` takes the trimmed value of the last one for the id and
-- `drsIDFromMetadata` that of the first.
pub drs_id_order_matters :
    (first end : Option Avu) (metas : List (Option Avu)) (o : InternalDrsObject)
    → carries drs_id_avu_attrib first ≡ true
    → carries drs_id_avu_attrib end ≡ true
    → ((apply_drs_metadata o (first ∷ metas ++ (end ∷ []))).id ≡ value_of end)
      × (drs_id_from_metadata (first ∷ metas ++ (end ∷ [])) ≡ value_of first)
unfolding drs_id_from_metadata
drs_id_order_matters first end metas o cf ce = (
  apply_drs_metadata-id (first ∷ metas ++ (end ∷ [])) o
      ∙ last_id_of_end o.id (first ∷ metas) end ce,
  ground arith,
)
