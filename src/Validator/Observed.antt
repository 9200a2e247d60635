-- ===== src/Validator/Observed.antt =====
-- The comparison of an object with its observed state (drs-support/drs_validator.go).
use irods_go_drs.Base.{
  ℕ, zero, suc, ◌+◌, ◌/◌, ◌%◌, ◌&&◌, Option, none, some, List, [], ◌∷◌, ◌++◌, is_nil, ltb,
  if◌then◌else◌,
}
use irods_go_drs.Text.{Text, codes, ◌==◌}
use irods_go_drs.Model.{InternalChecksum, InternalDrsObject}

pub record ObservedObjectState : Type 0 where
  pub checksum : Option InternalChecksum
  pub size : ℕ
  pub created_time : ℕ
  pub updated_time : ℕ

pub record MetadataUpdate : Type 0 where
  pub drs_id : Text
  pub path : Text
  pub field : Text
  pub old_value : Text
  pub new_value : Text
  pub status : Text

-- `fmt.Sprintf("%d", n)`; a number has at most as many digits as its value and one more.
digits_of : ℕ → ℕ → Text
digits_of zero n = []
digits_of (suc fuel) n =
    let front = digits_of fuel (n / 10) in
    if ltb n 10 then (48 + n) ∷ [] else front ++ ((48 + n % 10) ∷ [])

unfoldable pub show_number : ℕ → Text
unfolding digits_of
show_number n = digits_of (suc n) n

abbrev pub update_of : InternalDrsObject → Text → Text → Text → MetadataUpdate
update_of object field current observed = record {
  drs_id = object.id;
  path = object.absolute_path;
  field = field;
  old_value = current;
  new_value = observed;
  status = [];
}

-- `compareMetadataField`: the update that is noted, if any; the result is whether there is one.
unfoldable pub compare_metadata_field : InternalDrsObject → Text → Text → Text → List MetadataUpdate
compare_metadata_field object field current observed =
    if current == observed then [] else update_of object field current observed ∷ []

abbrev pub checksum_type : Option InternalChecksum → Text
checksum_type none = []
checksum_type (some c) = c.type

abbrev pub checksum_value : Option InternalChecksum → Text
checksum_value none = []
checksum_value (some c) = c.value

unfoldable pub compare_checksum_field :
    InternalDrsObject → Option InternalChecksum → List MetadataUpdate
compare_checksum_field object observed =
    compare_metadata_field object (codes "checksum_type") (checksum_type object.checksum)
      (checksum_type observed)
    ++ compare_metadata_field object (codes "checksum_value") (checksum_value object.checksum)
        (checksum_value observed)

-- The four comparisons of `validateAtomicObject`, in order.
unfoldable pub compare_fields :
    (ℕ → Text) → InternalDrsObject → ObservedObjectState → List MetadataUpdate
compare_fields format_time object observed =
    compare_metadata_field object (codes "size") (show_number object.size)
      (show_number observed.size)
    ++ (compare_metadata_field object (codes "created_time") (format_time object.created_time)
          (format_time observed.created_time)
        ++ (compare_metadata_field object (codes "updated_time") (format_time object.updated_time)
              (format_time observed.updated_time)
            ++ compare_checksum_field object observed.checksum))

-- The loop that marks the updates of an object which have no status yet.
unfoldable pub updated_status : Text → List MetadataUpdate → List MetadataUpdate
updated_status id [] = []
updated_status id (u ∷ updates) =
    let rest = updated_status id updates in
    if u.drs_id == id && is_nil u.status
    then record u { status = codes "updated" } ∷ rest
    else u ∷ rest

-- `applyObservedState`
unfoldable pub apply_observed_state : InternalDrsObject → ObservedObjectState → InternalDrsObject
apply_observed_state object observed =
    let version = checksum_value observed.checksum in
    record object {
      size = observed.size;
      created_time = observed.created_time;
      updated_time = observed.updated_time;
      checksum = observed.checksum;
      version = (if is_nil object.version then version else object.version);
    }
