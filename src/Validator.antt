-- ===== src/Validator.antt =====
-- `DrsValidator` (drs-support/drs_validator.go): a validation run, which follows the manifests. The
-- resolver is a parameter, over a state that its updates change; so are the reader of JSON manifests and
-- the format of times. Error texts are those of the resolver, and a message is told by its kind.
pub mod Manifest
pub mod Observed
pub mod Visits
pub mod Ends
use irods_go_drs.Base.{
  ℕ, zero, suc, Bool, true, false, ◌&&◌, ◌||◌, not, Option, none, some, List, [], ◌∷◌, ◌++◌,
}
use irods_go_drs.Base.{is_nil, map, if◌then◌else◌}
use irods_go_drs.Base.Exec.{Result, ok, err, Exec}
use irods_go_drs.Text.{Text, codes, ◌==◌, member}
use irods_go_drs.Model.{InternalDrsObject, DrsManifestEntry}
use irods_go_drs.Validator.Manifest.{DrsManifest, Issue, with_default_schema, validate}
use irods_go_drs.Validator.Observed.{
  ObservedObjectState, MetadataUpdate, compare_fields, updated_status, apply_observed_state,
}

pub data ValidationSeverity : Type 0 where
  info warning error : ValidationSeverity

pub data Message : Type 0 where
  empty_id nil_object no_observed_state : Message
  not_resolved not_observed not_updated not_read not_parsed : Text → Message
  manifest_issue : Issue → Message

pub record ValidationFinding : Type 0 where
  pub severity : ValidationSeverity
  pub drs_id : Text
  pub path : Text
  pub message : Message

-- The report without its two times. `visited_drs_ids` is the list and the keys of the map `visited`.
pub record ValidationReport : Type 0 where
  pub root_drs_id : Text
  pub visited_drs_ids : List Text
  pub findings : List ValidationFinding
  pub metadata_updates : List MetadataUpdate

-- `DrsObjectResolver`, `json.Unmarshal` into a manifest, and `Time.Format(time.RFC3339)`.
pub record Resolver : Type 1 where
  pub State : Type 0
  pub get_object_by_id : Text → State → Result Text (Option InternalDrsObject)
  pub read_object_contents : InternalDrsObject → State → Result Text (List ℕ)
  pub observe_object_state : InternalDrsObject → State → Result Text (Option ObservedObjectState)
  pub update_object_metadata : InternalDrsObject → ObservedObjectState → Exec State Text (Unit {0})
  -- The validator changes objects that the resolver gave: what that means for the resolver.
  pub object_changed : InternalDrsObject → State → State
  pub unmarshal : List ℕ → Result Text DrsManifest
  pub format_time : ℕ → Text

abbrev pub add_finding :
    ValidationSeverity → Text → Text → Message → ValidationReport → ValidationReport
add_finding severity id path message report = record report {
  findings =
      report.findings
      ++ (record { severity = severity; drs_id = id; path = path; message = message } ∷ []);
}

abbrev pub object_finding :
    ValidationSeverity → InternalDrsObject → Message → ValidationReport → ValidationReport
object_finding severity object message = add_finding severity object.id object.absolute_path message

abbrev pub new_report : Text → ValidationReport
new_report id = record {
  root_drs_id = id;
  visited_drs_ids = [];
  findings = [];
  metadata_updates = [];
}

unfoldable pub mark_visited : Text → ValidationReport → ValidationReport
mark_visited id report = record report { visited_drs_ids = report.visited_drs_ids ++ (id ∷ []) }

-- The end of the check of one object, behind the call that updates it.
abbrev pub after_update :
    InternalDrsObject → ValidationReport → Result Text (Unit {0}) → ValidationReport
after_update object report (err e) = object_finding error object (not_updated e) report
after_update object report (ok u) = record report {
  metadata_updates = updated_status object.id report.metadata_updates;
}

unfoldable pub add_issues : InternalDrsObject → List Issue → ValidationReport → ValidationReport
add_issues object [] report = report
add_issues object (i ∷ issues) report =
    add_issues object issues (object_finding error object (manifest_issue i) report)

module _ (R : Resolver) where
  abbrev pub Run : Type 0
  Run = ValidationReport × R.State

  abbrev pub state_after_update :
      InternalDrsObject → ObservedObjectState → Result Text (Unit {0}) → R.State → R.State
  state_after_update object observed (err e) s = s
  state_after_update object observed (ok u) s =
      R.object_changed (apply_observed_state object observed) s

  -- The comparison of an object with its observed state; only a difference is written back.
  unfoldable pub validate_observed : InternalDrsObject → ObservedObjectState → Run → Run
  validate_observed object observed (report, s) =
      let updates = compare_fields R.format_time object observed in
      let noted : ValidationReport = record report {
        metadata_updates = report.metadata_updates ++ updates;
      } in
      let r = R.update_object_metadata object observed s in
      if is_nil updates
      then (noted, s)
      else (after_update object noted r.0, state_after_update object observed r.0 r.1)

  abbrev pub validate_observation :
      InternalDrsObject → Result Text (Option ObservedObjectState) → Run → Run
  validate_observation object (err e) (report, s) =
      (object_finding error object (not_observed e) report, s)
  validate_observation object (ok none) (report, s) =
      (object_finding warning object no_observed_state report, s)
  validate_observation object (ok (some observed)) run = validate_observed object observed run

  unfoldable pub validate_atomic_object : InternalDrsObject → Run → Run
  validate_atomic_object object (report, s) =
      validate_observation object (R.observe_object_state object s) (report, s)

  -- A visit of one id, which may run out of fuel.
  abbrev pub Visit : Type 0
  Visit = Text → Run → Option Run

  abbrev pub then_visit : Option Run → (Run → Option Run) → Option Run
  then_visit none next = none
  then_visit (some run) next = next run

  -- The loop over the contents; an entry without an id is passed over.
  unfoldable pub validate_contents : Visit → List DrsManifestEntry → Run → Option Run
  validate_contents visit [] run = some run
  validate_contents visit (child ∷ contents) run =
      if is_nil child.id
      then validate_contents visit contents run
      else then_visit (visit child.id run) (validate_contents visit contents)

  -- `ParseDrsManifest`
  unfoldable pub parse_drs_manifest : List ℕ → Result Text DrsManifest
  parse_drs_manifest [] = err (codes "manifest content is empty")
  parse_drs_manifest (b ∷ bytes) = elim (R.unmarshal (b ∷ bytes)) [
    | err e ↦ err e
    | ok manifest ↦ ok (with_default_schema manifest)
  ]

  abbrev pub validate_manifest :
      Visit → InternalDrsObject → Result Text DrsManifest → Run → Option Run
  validate_manifest visit object (err e) (report, s) =
      some (object_finding error object (not_parsed e) report, s)
  validate_manifest visit object (ok manifest) (report, s) =
      validate_contents visit manifest.contents (
        add_issues object (validate manifest) report,
        R.object_changed (record object { contents = manifest.contents }) s,
      )

  abbrev pub validate_contents_of :
      Visit → InternalDrsObject → Result Text (List ℕ) → Run → Option Run
  validate_contents_of visit object (err e) (report, s) =
      some (object_finding error object (not_read e) report, s)
  validate_contents_of visit object (ok body) run =
      validate_manifest visit object (parse_drs_manifest body) run

  unfoldable pub validate_manifest_object : Visit → InternalDrsObject → Run → Option Run
  validate_manifest_object visit object (report, s) =
      validate_contents_of visit object (R.read_object_contents object s) (report, s)

  -- What follows the resolution of an id.
  abbrev pub validate_resolved :
      Visit → Text → Result Text (Option InternalDrsObject) → Run → Option Run
  validate_resolved visit id (err e) (report, s) =
      some (add_finding error id [] (not_resolved e) report, s)
  validate_resolved visit id (ok none) (report, s) =
      some (add_finding error id [] nil_object report, s)
  validate_resolved visit id (ok (some object)) run =
      if object.is_manifest
      then validate_manifest_object visit object run
      else some (validate_atomic_object object run)

  -- The recursion takes fuel; `none` means that it ran out, which the source has no counterpart for.
  unfoldable pub validate_recursive : ℕ → Visit
  validate_recursive zero id run = none
  validate_recursive (suc fuel) id (report, s) =
      if is_nil id
      then some (add_finding error [] [] empty_id report, s)
      else if member id report.visited_drs_ids
      then some (report, s)
      else validate_resolved (validate_recursive fuel) id (R.get_object_by_id id s)
          (mark_visited id report, s)

  -- `Validate`, for a validator that is configured.
  unfoldable pub validate_object : ℕ → Text → R.State → Option Run
  validate_object fuel id s = validate_recursive fuel id (new_report id, s)
