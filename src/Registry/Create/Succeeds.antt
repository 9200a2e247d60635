-- ===== src/Registry/Create/Succeeds.antt =====
-- When a creation goes through.
use irods_go_drs.Base.{
  ◌≡◌, refl, ◌∙◌, Bool, true, false, ◌&&◌, ◌||◌, not, Option, none, some, List, [], ◌∷◌, ℕ,
}
use irods_go_drs.Base.{arith, is_nil}
use irods_go_drs.Base.Exec.{ok, err, Exec}
use irods_go_drs.Text.{Text, ◌==◌, ==_refl, trim_space}
use irods_go_drs.Model.{
  Avu, Entry, InternalChecksum, InternalDrsObject, IrodsChecksum, IrodsReplica,
}
use irods_go_drs.Irods.Interface.{
  Client, ClientError, Capability, by_method, by_connection, unsupported, already_drs_object,
}
use irods_go_drs.Irods.Actions.{irods_zone_for_path}
use irods_go_drs.Metadata.Render.{metadata_for_object}
use irods_go_drs.Objects.FromEntry.{internal_drs_object_from_entry}
use irods_go_drs.Registry.Guid.{format_guid}
use irods_go_drs.Registry.EnsureChecksum.{
  first_checksum, register_checksum, ensure_data_object_checksum,
}
use irods_go_drs.Objects.Checksum.{checksum_from_irods_checksum}
use irods_go_drs.Objects.Recognised.{
  internal_drs_object_from_entry-id, internal_drs_object_from_entry-is_manifest,
}
use irods_go_drs.Metadata.Agreement.{last_id}
use irods_go_drs.Metadata.Lookup.{collection_has_compound_marker}
use irods_go_drs.Irods.Stored.{IsLawful}
use irods_go_drs.Registry.Create.Effect.{Effect, create-Effect}
use irods_go_drs.Registry.Create.{
  is_root_or_empty, add_all, new_object, with_checksum, decorate, register,
  create_drs_object_from_data_object,
}

module _ (C : Client) (path : Text)
    (adds : (m : Avu) (s : C.State) → (C.add_metadata path m s).0 ≡ ok tt) where
  add_all-ok : (metas : List Avu) (s : C.State) → (add_all C path metas s).0 ≡ ok tt
  unfolding add_all
  add_all-ok [] s = refl
  add_all-ok (m ∷ metas) s = ground (arith, adds m s, add_all-ok metas (C.add_metadata path m s).1)

  decorate-ok :
      (mime_type description : Text) (aliases : List Text) (entry : Entry) (s : C.State)
      (bytes : List ℕ) (sum : Option InternalChecksum)
      → (C.random_bytes s).0 ≡ ok bytes
      → (ensure_data_object_checksum C path entry.replicas (C.random_bytes s).1).0 ≡ ok sum
      → (decorate C path mime_type description aliases entry s).0 ≡ ok (format_guid bytes)
  unfolding decorate
  decorate-ok mime_type description aliases entry s bytes sum er ec = ground (
    arith,
    add_all-ok
        (metadata_for_object (
          with_checksum C sum (
            new_object C (format_guid bytes) path mime_type description aliases entry
              (C.random_bytes s).1)))
        (ensure_data_object_checksum C path entry.replicas (C.random_bytes s).1).1,
  )

module _ (C : Client) (absolute_path mime_type description : Text) (aliases : List Text)
    (s : C.State) where
  abbrev pub target : Text
  target = C.correct_path (trim_space absolute_path)

  -- The object that the entry is already.
  abbrev pub existing : Entry → List (Option Avu) → InternalDrsObject
  existing entry metas = internal_drs_object_from_entry entry (irods_zone_for_path C target s) metas

  -- The AVUs hold a compound marker, or their last DRS id is neither blank nor the path.
  abbrev pub is_refused : List (Option Avu) → Bool
  is_refused metas =
      collection_has_compound_marker metas
      || not (is_nil (last_id [] metas)) && not (last_id [] metas == target)

  register_test :
      (entry : Entry) (metas : List (Option Avu))
      → entry.path ≡ target
      → not ((existing entry metas).id == target) || (existing entry metas).is_manifest
        ≡ is_refused metas
  register_test entry metas p = ground (
    arith,
    p,
    internal_drs_object_from_entry-id entry (irods_zone_for_path C target s) metas,
    internal_drs_object_from_entry-is_manifest entry (irods_zone_for_path C target s) metas,
    ==_refl target,
  )

  -- The calls for a checksum succeed, where the client has them.
  abbrev pub GivesChecksum :
      Capability (Text → Exec C.State ClientError (Option IrodsChecksum)) → Type 0
  GivesChecksum (by_method f) = (t : C.State) → (c : Option IrodsChecksum) × ((f target t).0 ≡ ok c)
  GivesChecksum (by_connection f) =
      (t : C.State) → (c : Option IrodsChecksum) × ((f target t).0 ≡ ok c)
  GivesChecksum unsupported = Unit

  register_checksum-ok :
      (t : C.State) (calls : Capability (Text → Exec C.State ClientError (Option IrodsChecksum)))
      → C.ensure_checksum ≡ calls
      → GivesChecksum calls
      → (sum : Option InternalChecksum) × ((register_checksum C target t).0 ≡ ok sum)
  unfolding register_checksum
  register_checksum-ok t (by_method f) e g =
      (checksum_from_irods_checksum (g t).0, rw e (rw ((g t).1) refl))
  register_checksum-ok t (by_connection f) e g =
      (checksum_from_irods_checksum (g t).0, rw e (rw ((g t).1) refl))
  register_checksum-ok t unsupported e g = (none, rw e refl)

  ensure_checksum-ok :
      (replicas : List (Option IrodsReplica)) (found : Option InternalChecksum) (t : C.State)
      → first_checksum replicas ≡ found
      → GivesChecksum C.ensure_checksum
      → (sum : Option InternalChecksum) × ((ensure_data_object_checksum C target replicas t).0
          ≡ ok sum)
  unfolding ensure_data_object_checksum
  ensure_checksum-ok replicas none t f g =
      let r = register_checksum-ok t C.ensure_checksum refl g in (r.0, ground (arith, f, r.1))
  ensure_checksum-ok replicas (some c) t f g = (some c, ground (arith, f))

  create-eq :
      (entry : Entry) (metas : List (Option Avu)) (bytes : List ℕ)
      → is_root_or_empty target ≡ false
      → C.stat_file target s ≡ ok (some entry)
      → C.list_metadata target s ≡ ok metas
      → entry.path ≡ target
      → is_refused metas ≡ false
      → (C.random_bytes s).0 ≡ ok bytes
      → GivesChecksum C.ensure_checksum
      → ((m : Avu) (t : C.State) → (C.add_metadata target m t).0 ≡ ok tt)
      → (create_drs_object_from_data_object C absolute_path mime_type description aliases s).0
        ≡ ok (format_guid bytes)
  unfolding create_drs_object_from_data_object register
  create-eq entry metas bytes g ef el p new er ec adds =
      let sum =
        ensure_checksum-ok entry.replicas (first_checksum entry.replicas) (C.random_bytes s).1 refl
          ec in
      rw (g, ef, el)
        (rw (register_test entry metas p ∙ new)
          (decorate-ok C target adds mime_type description aliases entry s bytes sum.0 er sum.1))

  -- Where the path names an entry with that path whose AVUs can be listed, of which none is a compound
  -- marker and the last DRS id is missing, blank or the path itself, and where the client draws random
  -- bytes, gives checksums and adds every AVU, a creation succeeds with the identifier of those bytes. It
  -- has then added the AVUs of an object with that identifier, no manifest mark, and the caller's
  -- description and aliases trimmed, and has changed no other AVU.
  pub create-ok :
      (L : IsLawful C) (entry : Entry) (metas : List (Option Avu)) (bytes : List ℕ)
      → is_root_or_empty target ≡ false
      → C.stat_file target s ≡ ok (some entry)
      → C.list_metadata target s ≡ ok metas
      → entry.path ≡ target
      → is_refused metas ≡ false
      → (C.random_bytes s).0 ≡ ok bytes
      → GivesChecksum C.ensure_checksum
      → ((m : Avu) (t : C.State) → (C.add_metadata target m t).0 ≡ ok tt)
      → ((create_drs_object_from_data_object C absolute_path mime_type description aliases s).0
          ≡ ok (format_guid bytes))
        × Effect C L absolute_path mime_type description aliases s (format_guid bytes)
  create-ok L entry metas bytes g ef el p new er ec adds =
      let created = create-eq entry metas bytes g ef el p new er ec adds in
      (
        created,
        create-Effect C L absolute_path mime_type description aliases s (format_guid bytes) created,
      )

  -- Where the path names an entry with that path whose AVUs hold a compound marker, or of which the last
  -- DRS id is neither blank nor the path, a creation fails because it is a DRS object already, and changes
  -- nothing.
  pub create-already_drs_object :
      (entry : Entry) (metas : List (Option Avu))
      → is_root_or_empty target ≡ false
      → C.stat_file target s ≡ ok (some entry)
      → C.list_metadata target s ≡ ok metas
      → entry.path ≡ target
      → is_refused metas ≡ true
      → create_drs_object_from_data_object C absolute_path mime_type description aliases s
        ≡ (err (already_drs_object target), s)
  unfolding create_drs_object_from_data_object register
  create-already_drs_object entry metas g ef el p old =
      rw (g, ef, el) (rw (register_test entry metas p ∙ old) refl)
