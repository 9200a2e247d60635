-- ===== src/Update/Effect.antt =====
-- What an update leaves behind.
use irods_go_drs.Base.{
  ℕ, ◌≡◌, refl, false, Bool-cases, ◌&&◌, ◌||◌, not, Option, none, some, List, [], ◌∷◌, map,
}
use irods_go_drs.Base.{ap, arith, filter, is_nil, inl, inr, if◌then◌else◌}
use irods_go_drs.Base.Exec.{Result, ok, err}
use irods_go_drs.Text.{Text, codes, ◌==◌, ==_iff, trim_space}
use irods_go_drs.Model.{Avu, Attribute, InternalDrsObject}
use irods_go_drs.Irods.Interface.{Client, ClientError, Error}
use irods_go_drs.Irods.Stored.{contains, stored, stored_of_listing, IsLawful}
use irods_go_drs.Irods.Actions.{Action}
use irods_go_drs.Irods.Deletion.{delete_matching, stored-delete_matching}
use irods_go_drs.Metadata.Attributes.{carries, drs_avu_alias_attrib, drs_metadata_attribute_name}
use irods_go_drs.Metadata.Render.{drs_avu, normalized_aliases}
use irods_go_drs.Registry.Create.{add_all}
use irods_go_drs.Registry.Create.Effect.{stored-add_all}
use irods_go_drs.Registry.Upsert.{new_avu, set_value, stored-set_value}
use irods_go_drs.Compound.Build.{Built}
use irods_go_drs.Compound.Runtime.{Digest}
use irods_go_drs.Resolve.{get_drs_object_by_irods_path}
use irods_go_drs.Update.{
  replace, set_field, set_aliases, update_found, checked_field, update_drs_object_metadata_field,
  update_drs_object_aliases,
}

-- The AVUs that a value leaves: none for a blank one.
abbrev pub value_avus : Text → Text → List Avu
value_avus attribute value = if is_nil (trim_space value) then [] else new_avu attribute value ∷ []

module _ (C : Client) (L : IsLawful C) where
  -- Between the states the AVUs of the attribute at the path gave way to those of the list, and no
  -- other AVU changed.
  abbrev pub IsReplaced : Text → Text → List Avu → C.State → C.State → Type 0
  IsReplaced path attribute new s t =
      (q : Text) (x : Avu)
      → stored C q x t ≡ (
          stored C q x s && not (q == path && carries attribute (some x))
          || (q == path && contains x (map some new)))

  abbrev Writes : Text → Action C (Unit {0}) → List Avu → Type 0
  Writes path write new =
      (q : Text) (x : Avu) (s : C.State)
      → (write s).0 ≡ ok tt
      → stored C q x (write s).1 ≡ (stored C q x s || (q == path && contains x (map some new)))

  replace_of_listing :
      (path attribute : Text) (write : Action C (Unit {0})) (new : List Avu)
      (listing : Result ClientError (List (Option Avu))) (s : C.State)
      → C.list_metadata path s ≡ listing
      → Writes path write new
      → (replace C path attribute write s).0 ≡ ok tt
      → IsReplaced path attribute new s (replace C path attribute write s).1
  unfolding replace
  replace_of_listing path attribute write new (err e) s l w h q x = absurd (ground arith)
  replace_of_listing path attribute write new (ok metas) s l w h q x = ground (
    arith,
    ==_iff q path,
    stored_of_listing C path metas x s l,
    stored-delete_matching C (carries attribute) path L metas q x s,
    w q x (delete_matching C (carries attribute) path metas s).1,
  )

  set_value-Writes :
      (path attribute value : Text)
      → Writes path (set_value C path attribute value) (value_avus attribute value)
  unfolding contains
  set_value-Writes path attribute value q x s h =
      ground (arith, stored-set_value C L path attribute value q x s)

  set_aliases-IsReplaced :
      (path : Text) (aliases : List Text) (s : C.State)
      → (set_aliases C path aliases s).0 ≡ ok tt
      → IsReplaced path drs_avu_alias_attrib
          (map (drs_avu Attribute.alias) (normalized_aliases aliases))
          s
          (set_aliases C path aliases s).1
  unfolding set_aliases
  set_aliases-IsReplaced path aliases s h =
      replace_of_listing path drs_avu_alias_attrib _ _ _ s refl
        (stored-add_all C L path (map (drs_avu Attribute.alias) (normalized_aliases aliases))) h

  -- The given aliases that are not blank, trimmed, as often as they are given.
  abbrev pub given : List Text → List Text
  given aliases = filter (λ alias. not (is_nil alias)) (map trim_space aliases)

  normalized_aliases-eq-given : (aliases : List Text) → normalized_aliases aliases ≡ given aliases
  unfolding normalized_aliases
  normalized_aliases-eq-given [] = refl
  normalized_aliases-eq-given (alias ∷ aliases) =
      ground (arith, normalized_aliases-eq-given aliases)

  -- From one state to the other by one call for each alias, in this order, which succeeds.
  abbrev pub AddsAliases : Text → List Text → C.State → C.State → Type 0
  AddsAliases path [] s t = s ≡ t
  AddsAliases path (alias ∷ aliases) s t =
      ((C.add_metadata path (drs_avu Attribute.alias alias) s).0 ≡ ok tt)
      × AddsAliases path aliases (C.add_metadata path (drs_avu Attribute.alias alias) s).1 t

  add_all-AddsAliases :
      (path : Text) (aliases : List Text) (s t : C.State)
      → add_all C path (map (drs_avu Attribute.alias) aliases) s ≡ (ok tt, t)
      → AddsAliases path aliases s t
  unfolding add_all
  add_all-AddsAliases path [] s t h = ap (λ r. r.1) h
  add_all-AddsAliases path (alias ∷ aliases) s t h =
      let m = drs_avu Attribute.alias alias in
      added (C.add_metadata path m s).0 refl
        (add_all-AddsAliases path aliases (C.add_metadata path m s).1 t)
    where
      added :
          (r : Result ClientError (Unit {0}))
          → (C.add_metadata path (drs_avu Attribute.alias alias) s).0 ≡ r
          → (add_all C path
                  (map (drs_avu Attribute.alias) aliases)
                  (C.add_metadata path (drs_avu Attribute.alias alias) s).1
                ≡ (ok tt, t)
              → AddsAliases path aliases
                  (C.add_metadata path (drs_avu Attribute.alias alias) s).1
                  t)
          → AddsAliases path (alias ∷ aliases) s t
      added (ok u) e later = (e, later (ground (arith, h, e)))
      added (err f) e later = absurd (ground (arith, h, e))

  replace_ends :
      (path attribute : Text) (write : Action C (Unit {0})) (s t : C.State)
      (listing : Result ClientError (List (Option Avu)))
      → C.list_metadata path s ≡ listing
      → replace C path attribute write s ≡ (ok tt, t)
      → (u : C.State) × (write u ≡ (ok tt, t))
  unfolding replace
  replace_ends path attribute write s t (err e) l h = absurd (ground arith)
  replace_ends path attribute write s t (ok metas) l h =
      deleted (delete_matching C (carries attribute) path metas s).0 refl
    where
      deleted :
          (r : Result Error (Unit {0}))
          → (delete_matching C (carries attribute) path metas s).0 ≡ r
          → (u : C.State) × (write u ≡ (ok tt, t))
      deleted (err e) d = absurd (ground (arith, h, l, d))
      deleted (ok v) d =
          ((delete_matching C (carries attribute) path metas s).1, ground (arith, h, l, d))

  set_aliases-AddsAliases :
      (path : Text) (aliases : List Text) (s t : C.State)
      → set_aliases C path aliases s ≡ (ok tt, t)
      → (u : C.State) × AddsAliases path (given aliases) u t
  unfolding set_aliases
  set_aliases-AddsAliases path aliases s t h =
      let r =
        replace_ends path drs_avu_alias_attrib
          (add_all C path (map (drs_avu Attribute.alias) (normalized_aliases aliases))) s t _ refl
          h in
      (
        r.0,
        add_all-AddsAliases path (given aliases) r.0 t
            (rw (normalized_aliases-eq-given aliases) at r.1),
      )

  module _ (digest : Digest) (fuel : ℕ) (absolute_path : Text) (s t : C.State) where
    -- The object that the path was resolved to, with a property of its path.
    abbrev pub Resolved : (Text → Type 0) → Type 0
    Resolved P =
        (object : InternalDrsObject) × (get_drs_object_by_irods_path C digest fuel s absolute_path
          ≡ some (ok object))
        × P object.absolute_path

    update_found-Resolved :
        (found : Built InternalDrsObject) (update : Text → Action C (Unit {0}))
        → get_drs_object_by_irods_path C digest fuel s absolute_path ≡ found
        → update_found C found update s ≡ some (ok tt, t)
        → Resolved (λ path. update path s ≡ (ok tt, t))
    update_found-Resolved none update g h = absurd (ground arith)
    update_found-Resolved (some (err e)) update g h = absurd (ground arith)
    update_found-Resolved (some (ok object)) update g h = (object, g, ground arith)

    -- An update of the aliases that succeeds has resolved the path to a DRS object; of the AVUs of
    -- that object's path it leaves those that are no aliases under a DRS unit, with the given texts
    -- that are not blank, trimmed, as aliases, and it changes no AVU of another path. It ends with one
    -- addition for each given text that is not blank, in their order: a text that is given twice is
    -- added twice.
    pub update_drs_object_aliases_lem :
        (aliases : List Text)
        → update_drs_object_aliases C digest fuel absolute_path aliases s ≡ some (ok tt, t)
        → Resolved (λ path.
          IsReplaced path drs_avu_alias_attrib
            (map (drs_avu Attribute.alias) (normalized_aliases aliases))
            s
            t
          × ((u : C.State) × AddsAliases path (given aliases) u t))
    unfolding update_drs_object_aliases
    update_drs_object_aliases_lem aliases h = (
      r.0,
      r.1,
      (
        λ q x. ground (
          arith,
          r.2,
          set_aliases-IsReplaced r.0.absolute_path aliases s (ground (arith, r.2)) q x,
        ),
        set_aliases-AddsAliases r.0.absolute_path aliases s t r.2,
      ),
    )
      where
        r : Resolved (λ path. set_aliases C path aliases s ≡ (ok tt, t))
        r = update_found-Resolved _ _ refl h

    -- The given attribute is named by the field, and its AVUs gave way to the value.
    abbrev pub FieldIsSet : Text → Text → Text → Type 0
    FieldIsSet field value path =
        (attribute : Text) × (drs_metadata_attribute_name field ≡ some attribute)
        × (trim_space field == codes "alias" ≡ false)
        × IsReplaced path attribute (value_avus attribute value) s t

    set_field-FieldIsSet :
        (path field value : Text) (attribute : Option Text)
        → trim_space field == codes "alias" ≡ false
        → drs_metadata_attribute_name field ≡ attribute
        → set_field C path attribute value s ≡ (ok tt, t)
        → FieldIsSet field value path
    unfolding set_field
    set_field-FieldIsSet path field value none n a h = absurd (ground arith)
    set_field-FieldIsSet path field value (some attribute) n a h = (
      attribute,
      a,
      n,
      λ q x. ground (
        arith,
        h,
        replace_of_listing path attribute (set_value C path attribute value)
            (value_avus attribute value) _ s refl (set_value-Writes path attribute value)
            (ground (arith, h)) q x,
      ),
    )

    -- An update of a field that succeeds has resolved the path to a DRS object, and the field names an
    -- attribute other than the alias; of the AVUs of that object's path that carry the attribute under
    -- a DRS unit it leaves just one with the trimmed value, or none for a blank value, and it changes no
    -- other AVU.
    pub update_drs_object_metadata_field_lem :
        (field value : Text)
        → update_drs_object_metadata_field C digest fuel absolute_path field value s
          ≡ some (ok tt, t)
        → Resolved (FieldIsSet field value)
    unfolding update_drs_object_metadata_field
    update_drs_object_metadata_field_lem field value h = (
      r.0,
      r.1,
      elim (Bool-cases (trim_space field == codes "alias")) [
        | inl e ↦ absurd (ground (arith, r.2))
        | inr n ↦ set_field-FieldIsSet r.0.absolute_path field value _ n refl (rw n at r.2)
      ],
    )
      where
        r : Resolved (λ path. checked_field C field value path s ≡ (ok tt, t))
        r = update_found-Resolved _ _ refl h
