-- ===== src/Registry/Spares.antt =====
-- What the registry's operations leave alone: the AVUs of every path but their own, even where they fail.
use irods_go_drs.Base.{◌≡◌, refl, Bool, true, false, ◌||◌, not, Option, none, some, List, [], ◌∷◌}
use irods_go_drs.Base.{is_nil, if◌then◌else◌}
use irods_go_drs.Base.Exec.{ok, err, pure, raise, reads}
use irods_go_drs.Text.{Text, ◌==◌, trim_space}
use irods_go_drs.Model.{Avu, Entry, IrodsReplica, InternalChecksum, InternalDrsObject}
use irods_go_drs.Irods.Interface.{Client, path_required, already_drs_object}
use irods_go_drs.Irods.Actions.{Action, call, wrap, stat_entry, irods_zone_for_path}
use irods_go_drs.Irods.Stored.{stored}
use irods_go_drs.Irods.Deletion.{delete_matching}
use irods_go_drs.Irods.Frame.{
  IsLocal, Spares, pure-Spares, raise-Spares, reads-Spares, bind-Spares, seq-Spares, add-Spares,
  delete_matching-Spares,
}
use irods_go_drs.Metadata.Attributes.{carries, drs_avu_mime_type_attrib, drs_avu_version_attrib}
use irods_go_drs.Metadata.Lookup.{has_drs_metadata_with_value}
use irods_go_drs.Metadata.Render.{metadata_for_object}
use irods_go_drs.Objects.FromEntry.{internal_drs_object_from_entry}
use irods_go_drs.Registry.Guid.{format_guid}
use irods_go_drs.Registry.EnsureChecksum.{
  ensure_data_object_checksum, stored-ensure_data_object_checksum,
}
use irods_go_drs.Registry.Create.{
  is_root_or_empty, add_all, new_object, with_checksum, decorate, register,
  create_drs_object_from_data_object,
}
use irods_go_drs.Registry.Complete.{
  derived_mime_type, avu_of, complete_mime_type, with_replicas, write_version,
  version_from_checksum, complete_version, ensure_data_object_drs_completeness,
}
use irods_go_drs.Registry.Upsert.{new_avu, set_value, upsert_drs_metadata}

module _ (C : Client) (L : IsLocal C) (q : Text) where
  pub if-Spares :
      {A : Type 0} (b : Bool) (m n : Action C A)
      → Spares C q m
      → Spares C q n
      → Spares C q (if b then m else n)
  if-Spares true m n h k = h
  if-Spares false m n h k = k

  pub random-Spares : Spares C q (call C C.random_bytes)
  random-Spares = record { same = λ s x. L.lawful.stored-random q x s }

  checksum-Spares :
      (p : Text) (replicas : List (Option IrodsReplica))
      → Spares C q (ensure_data_object_checksum C p replicas)
  checksum-Spares p replicas = record {
    same = λ s x. stored-ensure_data_object_checksum C L.lawful p replicas q x s;
  }

  module _ (p : Text) (elsewhere : q == p ≡ false) where
    add_all-Spares : (metas : List Avu) → Spares C q (add_all C p metas)
    unfolding add_all
    add_all-Spares [] = pure-Spares C q tt
    add_all-Spares (m ∷ metas) =
        seq-Spares C q (call C (C.add_metadata p m)) (add_all C p metas)
          (add-Spares C q L p elsewhere m) (add_all-Spares metas)

    decorate-Spares :
        (mime_type description : Text) (aliases : List Text) (entry : Entry)
        → Spares C q (decorate C p mime_type description aliases entry)
    unfolding decorate
    decorate-Spares mime_type description aliases entry =
        bind-Spares C q (call C C.random_bytes) _ random-Spares λ bytes.
          bind-Spares C q
            (reads
              (λ s. ok (new_object C (format_guid bytes) p mime_type description aliases entry s)))
            _ (reads-Spares C q _)
            λ object.
              bind-Spares C q (ensure_data_object_checksum C p entry.replicas) _
                (checksum-Spares p entry.replicas)
                λ checksum.
                  seq-Spares C q
                    (add_all C p (metadata_for_object (with_checksum C checksum object)))
                    (pure (format_guid bytes)) (add_all-Spares _) (pure-Spares C q _)

    register-Spares :
        (mime_type description : Text) (aliases : List Text) (metas : List (Option Avu))
        (found : Option Entry)
        → Spares C q (register C p mime_type description aliases metas found)
    unfolding register
    register-Spares mime_type description aliases metas none = record { same = λ s x. refl }
    register-Spares mime_type description aliases metas (some entry) = record {
      same = λ s x. either s x (not ((existing s).id == p) || (existing s).is_manifest);
    }
      where
        existing : C.State → InternalDrsObject
        existing s = internal_drs_object_from_entry entry (irods_zone_for_path C p s) metas

        either :
            (s : C.State) (x : Avu) (old : Bool)
            → stored C q x
                (if old
                  then (err (already_drs_object p), s)
                  else decorate C p mime_type description aliases entry s).1
              ≡ stored C q x s
        either s x true = refl
        either s x false = (decorate-Spares mime_type description aliases entry).same s x

    complete_mime_type-Spares :
        (metas : List (Option Avu)) → Spares C q (complete_mime_type C p metas)
    unfolding complete_mime_type
    complete_mime_type-Spares metas =
        if-Spares (has_drs_metadata_with_value metas drs_avu_mime_type_attrib) (pure tt)
          (if is_nil (derived_mime_type C p)
            then pure tt
            else call C
                (C.add_metadata p (avu_of drs_avu_mime_type_attrib (derived_mime_type C p))))
          (pure-Spares C q tt)
          (if-Spares (is_nil (derived_mime_type C p)) (pure tt)
            (call C (C.add_metadata p (avu_of drs_avu_mime_type_attrib (derived_mime_type C p))))
            (pure-Spares C q tt) (add-Spares C q L p elsewhere _))

    write_version-Spares :
        (checksum : Option InternalChecksum) → Spares C q (write_version C p checksum)
    unfolding write_version
    write_version-Spares none = pure-Spares C q tt
    write_version-Spares (some c) =
        if-Spares (is_nil (trim_space c.value)) (pure tt)
          (call C (C.add_metadata p (avu_of drs_avu_version_attrib c.value))) (pure-Spares C q tt)
          (add-Spares C q L p elsewhere _)

    version_from_checksum-Spares : Spares C q (version_from_checksum C p)
    unfolding version_from_checksum
    version_from_checksum-Spares =
        bind-Spares C q (reads (λ s. wrap (stat_entry C p s))) _ (reads-Spares C q _) λ found.
          bind-Spares C q (reads (with_replicas C p found)) _ (reads-Spares C q _)
            λ (entry : Entry).
              bind-Spares C q (ensure_data_object_checksum C p entry.replicas) _
                (checksum-Spares p entry.replicas) write_version-Spares

    complete_version-Spares : (metas : List (Option Avu)) → Spares C q (complete_version C p metas)
    unfolding complete_version
    complete_version-Spares metas =
        if-Spares (has_drs_metadata_with_value metas drs_avu_version_attrib) (pure tt)
          (version_from_checksum C p) (pure-Spares C q tt) version_from_checksum-Spares

    pub ensure_completeness-Spares : Spares C q (ensure_data_object_drs_completeness C p)
    unfolding ensure_data_object_drs_completeness
    ensure_completeness-Spares = bind-Spares C q (reads _) _ (reads-Spares C q _) λ metas.
        seq-Spares C q (complete_mime_type C p metas) (complete_version C p metas)
          (complete_mime_type-Spares metas) (complete_version-Spares metas)

    pub upsert-Spares :
        (attribute value : Text) → Spares C q (upsert_drs_metadata C p attribute value)
    unfolding upsert_drs_metadata set_value
    upsert-Spares attribute value = bind-Spares C q (reads _) _ (reads-Spares C q _) λ metas.
        seq-Spares C q (delete_matching C (carries attribute) p metas) _
          (delete_matching-Spares C q L p elsewhere (carries attribute) metas)
          (if-Spares (is_nil (trim_space value)) (pure tt)
            (call C (C.add_metadata p (new_avu attribute value))) (pure-Spares C q tt)
            (add-Spares C q L p elsewhere _))

  -- A creation changes no AVU of a path other than the one that its argument stands for.
  pub create-Spares :
      (absolute_path mime_type description : Text) (aliases : List Text)
      → q == C.correct_path (trim_space absolute_path) ≡ false
      → Spares C q
          (create_drs_object_from_data_object C absolute_path mime_type description aliases)
  unfolding create_drs_object_from_data_object
  create-Spares absolute_path mime_type description aliases elsewhere =
      if-Spares (is_root_or_empty p) (raise path_required) _ (raise-Spares C q Text path_required) (
        bind-Spares C q (reads (λ s. wrap (C.stat_file p s))) _ (reads-Spares C q _) λ entry.
          bind-Spares C q (reads (λ s. wrap (C.list_metadata p s))) _ (reads-Spares C q _)
            λ metas. register-Spares p elsewhere mime_type description aliases metas entry)
    where
      p : Text
      p = C.correct_path (trim_space absolute_path)
