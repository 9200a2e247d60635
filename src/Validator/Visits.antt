-- ===== src/Validator/Visits.antt =====
-- A validation run visits no id twice.
use irods_go_drs.Base.{ℕ, zero, suc, ◌≡◌, refl, Bool, true, false, Bool-cases, arith}
use irods_go_drs.Base.{Option, none, some, List, [], ◌∷◌, ◌++◌, is_nil, inl, inr, if◌then◌else◌}
use irods_go_drs.Base.Exec.{Result, ok, err}
use irods_go_drs.Text.{Text, ==_comm, member, member-append}
use irods_go_drs.Model.{InternalDrsObject, DrsManifestEntry}
use irods_go_drs.Validator.{
  ValidationReport, Resolver, Run, Visit, new_report, mark_visited, validate_observed,
  validate_observation, validate_atomic_object, after_update, then_visit, validate_contents,
  add_issues, parse_drs_manifest, validate_manifest, validate_contents_of, validate_manifest_object,
  validate_resolved, validate_recursive, validate_object,
}
use irods_go_drs.Validator.Manifest.{DrsManifest, Issue, validate}
use irods_go_drs.Validator.Observed.{ObservedObjectState, compare_fields}

-- No text stands twice in the list.
abbrev pub IsDistinct : List Text → Type 0
IsDistinct [] = Unit
IsDistinct (t ∷ ts) = (member t ts ≡ false) × IsDistinct ts

IsDistinct-append :
    (ts : List Text) (t : Text) → IsDistinct ts → member t ts ≡ false → IsDistinct (ts ++ (t ∷ []))
unfolding member
IsDistinct-append [] t d n = (refl, tt)
IsDistinct-append (u ∷ ts) t d n = (
  ground (arith, member-append u ts (t ∷ []), ==_comm t u),
  IsDistinct-append ts t d.1 (ground arith),
)

-- The visited ids of the second report are those of the first and others, and are distinct if those
-- of the first are.
pub record Extends (r r' : ValidationReport) : Type 0 where
  pub distinct : IsDistinct r.visited_drs_ids → IsDistinct r'.visited_drs_ids
  pub grows : (x : Text) → member x r.visited_drs_ids ≡ true → member x r'.visited_drs_ids ≡ true

pub Extends-refl : (r : ValidationReport) → Extends r r
Extends-refl r = record { distinct = λ d. d; grows = λ x h. h }

pub Extends-trans : {r s t : ValidationReport} → Extends r s → Extends s t → Extends r t
Extends-trans a b = record {
  distinct = λ d. b.distinct (a.distinct d);
  grows = λ x h. b.grows x (a.grows x h);
}

pub mark_visited-Extends :
    (id : Text) (r : ValidationReport)
    → member id r.visited_drs_ids ≡ false
    → Extends r (mark_visited id r)
unfolding mark_visited
mark_visited-Extends id r n = record {
  distinct = λ d. IsDistinct-append r.visited_drs_ids id d n;
  grows = λ x h. ground (arith, member-append x r.visited_drs_ids (id ∷ []));
}

pub add_issues-Extends :
    (object : InternalDrsObject) (issues : List Issue) (r : ValidationReport)
    → Extends r (add_issues object issues r)
unfolding add_issues
add_issues-Extends object [] r = Extends-refl r
add_issues-Extends object (i ∷ issues) r =
    Extends-trans (record { distinct = λ d. d; grows = λ x h. h })
      (add_issues-Extends object issues _)

after_update-Extends :
    (object : InternalDrsObject) (r : ValidationReport) (done : Result Text (Unit {0}))
    → Extends r (after_update object r done)
after_update-Extends object r (ok u) = record { distinct = λ d. d; grows = λ x h. h }
after_update-Extends object r (err e) = record { distinct = λ d. d; grows = λ x h. h }

module _ (R : Resolver) where
  -- What a visit that ends leaves extends the report.
  abbrev pub Leaves : ValidationReport → Option (Run R) → Type 0
  Leaves r none = Unit
  Leaves r (some (r', t)) = Extends r r'

  if-Extends :
      {r a b : ValidationReport} (q : Bool)
      → Extends r a
      → (s t : R.State) → Extends r b
      → Extends r (if◌then◌else◌ {A = Run R} q (a, s) (b, t)).0
  if-Extends true a s t b = a
  if-Extends false a s t b = b

  validate_observed-Extends :
      (object : InternalDrsObject) (observed : ObservedObjectState) (r : ValidationReport)
      (s : R.State)
      → Extends r (validate_observed R object observed (r, s)).0
  unfolding validate_observed
  validate_observed-Extends object observed r s =
      if-Extends (is_nil (compare_fields R.format_time object observed)) noted s _ (
        Extends-trans noted
          (after_update-Extends object _ (R.update_object_metadata object observed s).0))
    where
      noted : Extends r (record r {
        metadata_updates = r.metadata_updates ++ compare_fields R.format_time object observed;
      })
      noted = record { distinct = λ d. d; grows = λ x h. h }

  pub validate_atomic_object-Extends :
      (object : InternalDrsObject) (r : ValidationReport) (s : R.State)
      → Extends r (validate_atomic_object R object (r, s)).0
  unfolding validate_atomic_object
  validate_atomic_object-Extends object r s = observation (R.observe_object_state object s)
    where
      observation :
          (o : Result Text (Option ObservedObjectState))
          → Extends r (validate_observation R object o (r, s)).0
      observation (err e) = record { distinct = λ d. d; grows = λ x h. h }
      observation (ok none) = record { distinct = λ d. d; grows = λ x h. h }
      observation (ok (some observed)) = validate_observed-Extends object observed r s

  if-Leaves :
      (r : ValidationReport) (q : Bool) (o o' : Option (Run R))
      → Leaves r o
      → Leaves r o'
      → Leaves r (if q then o else o')
  if-Leaves r true o o' a b = a
  if-Leaves r false o o' a b = b

  Leaves-trans :
      {r r' : ValidationReport} (o : Option (Run R)) → Extends r r' → Leaves r' o → Leaves r o
  Leaves-trans none a v = tt
  Leaves-trans (some (t, s)) a v = Extends-trans a v

  module _ (visit : Visit R)
      (extends : (id : Text) (r : ValidationReport) (s : R.State)
        → Leaves r (visit id (r, s))) where
    then_visit-Leaves :
        (r : ValidationReport) (o : Option (Run R)) (next : Run R → Option (Run R))
        → Leaves r o
        → ((r' : ValidationReport) (t : R.State) → Leaves r' (next (r', t)))
        → Leaves r (then_visit R o next)
    then_visit-Leaves r none next v n = tt
    then_visit-Leaves r (some (r', t)) next v n = Leaves-trans (next (r', t)) v (n r' t)

    validate_contents-Leaves :
        (contents : List DrsManifestEntry) (r : ValidationReport) (s : R.State)
        → Leaves r (validate_contents R visit contents (r, s))
    unfolding validate_contents
    validate_contents-Leaves [] r s = Extends-refl r
    validate_contents-Leaves (child ∷ contents) r s = elim (Bool-cases (is_nil child.id)) [
      | inl n ↦ rw n (validate_contents-Leaves contents r s)
      | inr n ↦ rw n (
          then_visit-Leaves r (visit child.id (r, s)) (validate_contents R visit contents)
            (extends child.id r s) (validate_contents-Leaves contents))
    ]

    validate_manifest-Leaves :
        (object : InternalDrsObject) (m : Result Text DrsManifest) (r : ValidationReport)
        (s : R.State)
        → Leaves r (validate_manifest R visit object m (r, s))
    validate_manifest-Leaves object (err e) r s = record { distinct = λ d. d; grows = λ x h. h }
    validate_manifest-Leaves object (ok m) r s =
        Leaves-trans (validate_contents R visit m.contents _)
          (add_issues-Extends object (validate m) r) (validate_contents-Leaves m.contents _ _)

    validate_contents_of-Leaves :
        (object : InternalDrsObject) (body : Result Text (List ℕ)) (r : ValidationReport)
        (s : R.State)
        → Leaves r (validate_contents_of R visit object body (r, s))
    validate_contents_of-Leaves object (err e) r s = record { distinct = λ d. d; grows = λ x h. h }
    validate_contents_of-Leaves object (ok body) r s =
        validate_manifest-Leaves object (parse_drs_manifest R body) r s

    validate_resolved-Leaves :
        (id : Text) (o : Result Text (Option InternalDrsObject)) (r : ValidationReport)
        (s : R.State)
        → Leaves r (validate_resolved R visit id o (r, s))
    unfolding validate_manifest_object
    validate_resolved-Leaves id (err e) r s = record { distinct = λ d. d; grows = λ x h. h }
    validate_resolved-Leaves id (ok none) r s = record { distinct = λ d. d; grows = λ x h. h }
    validate_resolved-Leaves id (ok (some object)) r s =
        if-Leaves r object.is_manifest
          (validate_contents_of R visit object (R.read_object_contents object s) (r, s))
          (some (validate_atomic_object R object (r, s)))
          (validate_contents_of-Leaves object (R.read_object_contents object s) r s)
          (validate_atomic_object-Extends object r s)

  pub validate_recursive-Leaves :
      (fuel : ℕ) (id : Text) (r : ValidationReport) (s : R.State)
      → Leaves r (validate_recursive R fuel id (r, s))
  unfolding validate_recursive
  validate_recursive-Leaves zero id r s = tt
  validate_recursive-Leaves (suc fuel) id r s = elim (Bool-cases (is_nil id)) [
    | inl n ↦ rw n (record { distinct = λ d. d; grows = λ x h. h })
    | inr n ↦ elim (Bool-cases (member id r.visited_drs_ids)) [
      | inl m ↦ rw (n, m) (Extends-refl r)
      | inr m ↦
          rw (n, m)
            (Leaves-trans
              (validate_resolved R (validate_recursive R fuel) id (R.get_object_by_id id s)
                (mark_visited id r, s))
              (mark_visited-Extends id r m)
              (validate_resolved-Leaves (validate_recursive R fuel) (validate_recursive-Leaves fuel)
                id (R.get_object_by_id id s) (mark_visited id r) s))
    ]
  ]

  pub validate_object-IsDistinct :
      (fuel : ℕ) (id : Text) (s : R.State) (report : ValidationReport) (t : R.State)
      → validate_object R fuel id s ≡ some (report, t)
      → IsDistinct report.visited_drs_ids
  unfolding validate_object
  validate_object-IsDistinct fuel id s report t h = extends.distinct tt
    where
      leaves : Leaves (new_report id) (validate_object R fuel id s)
      leaves = validate_recursive-Leaves fuel id _ s

      extends : Leaves (new_report id) (some (report, t))
      extends = rw h at leaves
