-- ===== src/Registry/Upsert.antt =====
-- `upsertDrsMetadata` of drs-support/compound_create.go: one attribute of an entry is replaced.
use irods_go_drs.Base.{◌≡◌, refl, ◌&&◌, ◌||◌, not, Option, some, List}
use irods_go_drs.Base.{arith, is_nil, if◌then◌else◌}
use irods_go_drs.Base.Exec.{Result, ok, err, pure, reads, ◌>>=◌, ◌>>◌}
use irods_go_drs.Text.{Text, ◌==◌, ==_iff, trim_space}
use irods_go_drs.Model.{Avu}
use irods_go_drs.Irods.Interface.{Client, ClientError, not_found, failed, Error}
use irods_go_drs.Irods.Stored.{avu_eq, contains, stored, IsLawful}
use irods_go_drs.Irods.Actions.{Action, call, or_empty}
use irods_go_drs.Irods.Deletion.{delete_matching, stored-delete_matching}
use irods_go_drs.Metadata.Attributes.{carries, drs_avu_unit}

abbrev pub new_avu : Text → Text → Avu
new_avu attribute value = record {
  name = attribute;
  value = trim_space value;
  units = drs_avu_unit;
}

module _ (C : Client) where
  -- The write after the old values are gone: a blank value leaves the attribute unset.
  unfoldable pub set_value : Text → Text → Text → Action C (Unit {0})
  set_value path attribute value =
      if is_nil (trim_space value)
      then pure tt
      else call C (C.add_metadata path (new_avu attribute value))

  unfoldable pub upsert_drs_metadata : Text → Text → Text → Action C (Unit {0})
  upsert_drs_metadata path attribute value = do
    metas ← reads (λ s. or_empty (C.list_metadata path s))
    delete_matching C (carries attribute) path metas
    set_value path attribute value

  module _ (L : IsLawful C) (path attribute value : Text) where
    pub stored-set_value :
        (q : Text) (x : Avu) (s : C.State)
        → (set_value path attribute value s).0 ≡ ok tt
        → stored C q x (set_value path attribute value s).1 ≡ (
            stored C q x s
            || (q == path
                && (not (is_nil (trim_space value)) && avu_eq x (new_avu attribute value))))
    unfolding set_value
    stored-set_value q x s h = ground (arith, L.stored-add path q (new_avu attribute value) x s)

    -- What the path carries as the upsert's listing shows it.
    stored_of_or_empty :
        (metas : List (Option Avu)) (listing : Result ClientError (List (Option Avu))) (x : Avu)
        (s : C.State)
        → C.list_metadata path s ≡ listing
        → or_empty listing ≡ ok metas
        → stored C path x s ≡ contains x metas
    unfolding stored contains
    stored_of_or_empty metas (ok found) x s e h = ground arith
    stored_of_or_empty metas (err not_found) x s e h = ground arith
    stored_of_or_empty metas (err (failed m)) x s e h = absurd (ground arith)

    abbrev upsert : Action C (Unit {0})
    upsert = upsert_drs_metadata path attribute value

    upsert_of_listing :
        (listing : Result Error (List (Option Avu))) (q : Text) (x : Avu) (s : C.State)
        → or_empty (C.list_metadata path s) ≡ listing
        → (upsert s).0 ≡ ok tt
        → stored C q x (upsert s).1 ≡ (
            stored C q x s && not (q == path && carries attribute (some x))
            || (q == path
                && (not (is_nil (trim_space value)) && avu_eq x (new_avu attribute value))))
    unfolding upsert_drs_metadata
    upsert_of_listing (ok metas) q x s e h = ground (
      arith,
      ==_iff q path,
      stored_of_or_empty metas (C.list_metadata path s) x s refl e,
      stored-delete_matching C (carries attribute) path L metas q x s,
      stored-set_value q x (delete_matching C (carries attribute) path metas s).1,
    )
    upsert_of_listing (err f) q x s e h = absurd (ground arith)

    -- An upsert that succeeds leaves, of the AVUs of the path that carry the attribute under a DRS
    -- unit, just the one with the trimmed value and the DRS unit, or none if the value is blank; all
    -- other AVUs of the path and those of other paths stay as they were.
    pub stored-upsert :
        (q : Text) (x : Avu) (s : C.State)
        → (upsert s).0 ≡ ok tt
        → stored C q x (upsert s).1 ≡ (
            stored C q x s && not (q == path && carries attribute (some x))
            || (q == path
                && (not (is_nil (trim_space value)) && avu_eq x (new_avu attribute value))))
    stored-upsert q x s h = upsert_of_listing _ q x s refl h
