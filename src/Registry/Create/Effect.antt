-- ===== src/Registry/Create/Effect.antt =====
-- What a creation leaves behind.
use irods_go_drs.Base.{◌≡◌, refl, false, ◌&&◌, ◌||◌, not, Option, none, some}
use irods_go_drs.Base.{ℕ, List, [], ◌∷◌, map, arith, inl, inr, Bool-cases}
use irods_go_drs.Base.Exec.{Result, ok}
use irods_go_drs.Text.{Text, ◌==◌, trim_space}
use irods_go_drs.Model.{Avu, Entry, InternalChecksum, InternalDrsObject}
use irods_go_drs.Irods.Interface.{Client, ClientError, Error}
use irods_go_drs.Irods.Stored.{contains, stored, IsLawful}
use irods_go_drs.Irods.Actions.{Action, irods_zone_for_path}
use irods_go_drs.Metadata.Render.{metadata_for_object, normalized_aliases}
use irods_go_drs.Objects.FromEntry.{internal_drs_object_from_entry}
use irods_go_drs.Registry.Guid.{format_guid}
use irods_go_drs.Registry.EnsureChecksum.{
  ensure_data_object_checksum, stored-ensure_data_object_checksum,
}
use irods_go_drs.Registry.Create.{
  is_root_or_empty, add_all, new_object, with_checksum, decorate, register,
  create_drs_object_from_data_object,
}

module _ (C : Client) (L : IsLawful C) where
  -- Adding a list of AVUs to a path adds those, and nothing else.
  pub stored-add_all :
      (path : Text) (metas : List Avu) (q : Text) (x : Avu) (s : C.State)
      → (add_all C path metas s).0 ≡ ok tt
      → stored C q x (add_all C path metas s).1
        ≡ (stored C q x s || (q == path && contains x (map some metas)))
  unfolding add_all contains
  stored-add_all path [] q x s h = ground arith
  stored-add_all path (m ∷ metas) q x s h =
      ground (
        arith,
        L.stored-add path q m x s,
        stored-add_all path metas q x (C.add_metadata path m s).1,
      )

  -- The AVUs of `object` were added to `path` between the states, and nothing else was changed.
  abbrev pub Decorated : Text → InternalDrsObject → C.State → C.State → Type 0
  Decorated path object s t =
      (q : Text) (x : Avu)
      → stored C q x t
        ≡ (stored C q x s || (q == path && contains x (map some (metadata_for_object object))))

  -- The object that a creation writes: the new id, no manifest mark, and the caller's texts trimmed.
  abbrev pub IsNewObject : Text → Text → List Text → InternalDrsObject → Type 0
  IsNewObject drs_id description aliases object =
      (object.id ≡ drs_id)
      × (object.is_manifest ≡ false)
      × (object.description ≡ trim_space description)
      × (object.aliases ≡ normalized_aliases aliases)

  module _ (path mime_type description : Text) (aliases : List Text) where
    decorate_effect :
        (entry : Entry) (s : C.State) (drs_id : Text) (bytes : Result ClientError (List ℕ))
        (sum : Result Error (Option InternalChecksum))
        → (C.random_bytes s).0 ≡ bytes
        → (ensure_data_object_checksum C path entry.replicas (C.random_bytes s).1).0 ≡ sum
        → (decorate C path mime_type description aliases entry s).0 ≡ ok drs_id
        → (object : InternalDrsObject) × IsNewObject drs_id description aliases object
          × Decorated path object s (decorate C path mime_type description aliases entry s).1
    unfolding decorate
    decorate_effect entry s drs_id (ok bytes) (ok sum) er ec h = (
      with_checksum C sum (
          new_object C (format_guid bytes) path mime_type description aliases entry
            (C.random_bytes s).1),
      unfold with_checksum new_object in ground arith,
      λ q x. ground (
        arith,
        L.stored-random q x s,
        stored-ensure_data_object_checksum C L path entry.replicas q x (C.random_bytes s).1,
        stored-add_all path
            (metadata_for_object (
              with_checksum C sum (
                new_object C (format_guid bytes) path mime_type description aliases entry
                  (C.random_bytes s).1)))
            q x (ensure_data_object_checksum C path entry.replicas (C.random_bytes s).1).1,
      ),
    )
    decorate_effect entry s drs_id _ _ er ec h = absurd (ground arith)

    register_effect :
        (metas : List (Option Avu)) (found : Option Entry) (s : C.State) (drs_id : Text)
        → (register C path mime_type description aliases metas found s).0 ≡ ok drs_id
        → (object : InternalDrsObject) × IsNewObject drs_id description aliases object
          × Decorated path object s (register C path mime_type description aliases metas found s).1
    unfolding register
    register_effect metas none s drs_id h = absurd (ground arith)
    register_effect metas (some entry) s drs_id h =
        elim (Bool-cases (not ((existing entry).id == path) || (existing entry).is_manifest)) [
          | inl refused ↦ absurd (ground arith)
          | inr new ↦ rw new (decorate_effect entry s drs_id _ _ refl refl (rw new at h))
        ]
      where
        existing : Entry → InternalDrsObject
        existing e = internal_drs_object_from_entry e (irods_zone_for_path C path s) metas

  module _ (absolute_path mime_type description : Text) (aliases : List Text) (s : C.State) where
    abbrev path : Text
    path = C.correct_path (trim_space absolute_path)

    abbrev create : Action C Text
    create = create_drs_object_from_data_object C absolute_path mime_type description aliases

    abbrev pub Effect : Text → Type 0
    Effect drs_id =
        (object : InternalDrsObject) × IsNewObject drs_id description aliases object
        × Decorated path object s (create s).1

    create-Effect_of_reads :
        (drs_id : Text) (found : Result ClientError (Option Entry))
        (listing : Result ClientError (List (Option Avu)))
        → C.stat_file path s ≡ found
        → C.list_metadata path s ≡ listing
        → is_root_or_empty path ≡ false
        → (create s).0 ≡ ok drs_id
        → Effect drs_id
    unfolding create_drs_object_from_data_object
    create-Effect_of_reads drs_id (ok found) (ok metas) ef el eg h =
        rw (eg, ef, el)
          (register_effect path mime_type description aliases metas found s drs_id
            (rw (eg, ef, el) at h))
    create-Effect_of_reads drs_id _ _ ef el eg h = absurd (ground arith)

    -- A creation that returns an id has added, to the path that it was asked for and to no other,
    -- the AVUs of an object with that id, no manifest mark, and the caller's description and
    -- aliases trimmed; no AVU of any path was removed.
    pub create-Effect : (drs_id : Text) → (create s).0 ≡ ok drs_id → Effect drs_id
    create-Effect drs_id h = elim (Bool-cases (is_root_or_empty path)) [
      | inl bad ↦ absurd (unfold create_drs_object_from_data_object in ground arith)
      | inr good ↦ create-Effect_of_reads drs_id _ _ refl refl good h
    ]
