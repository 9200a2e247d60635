-- ===== src/Validator/Ends.antt =====
-- A validation run ends.
use irods_go_drs.Base.{
  ℕ, zero, suc, ◌≡◌, refl, ◌<◌, ◌≤◌, Bool, true, false, Bool-cases, arith, length,
}
use irods_go_drs.Base.{Option, none, some, List, [], ◌∷◌, ◌++◌, is_nil, inl, inr, if◌then◌else◌}
use irods_go_drs.Base.Exec.{Result, ok, err}
use irods_go_drs.Text.{Text, ◌==◌, ==_refl, ==_iff, member, member-append}
use irods_go_drs.Model.{InternalDrsObject, DrsManifestEntry}
use irods_go_drs.Validator.{
  ValidationReport, Resolver, Run, new_report, mark_visited, then_visit, validate_contents,
  add_issues, parse_drs_manifest, validate_manifest, validate_contents_of, validate_manifest_object,
  validate_resolved, validate_recursive, validate_object,
}
use irods_go_drs.Validator.Manifest.{DrsManifest, validate}
use irods_go_drs.Validator.Visits.{IsDistinct, validate_object-IsDistinct}
use irods_go_drs.Validator.Visits.{Extends, add_issues-Extends, Leaves, validate_recursive-Leaves}

-- The number of the ids that are not visited.
unfoldable unvisited : List Text → List Text → ℕ
unvisited [] visited = 0
unvisited (u ∷ us) visited =
    let rest = unvisited us visited in if member u visited then rest else suc rest

unvisited-anti :
    (us v v' : List Text)
    → ((x : Text) → member x v ≡ true → member x v' ≡ true)
    → unvisited us v' ≤ unvisited us v
unfolding unvisited
unvisited-anti [] v v' h = ground arith
unvisited-anti (u ∷ us) v v' h = ground (arith, unvisited-anti us v v' h, h u)

unvisited-mark :
    (us v : List Text) (id : Text)
    → member id us ≡ true
    → member id v ≡ false
    → unvisited us (v ++ (id ∷ [])) < unvisited us v
unfolding unvisited member
unvisited-mark [] v id m n = absurd (ground arith)
unvisited-mark (u ∷ us) v id m n = elim (Bool-cases (id == u)) [
  | inl e ↦ ground (
    arith,
    unvisited-anti us v (v ++ (id ∷ [])) (λ x h. ground (arith, member-append x v (id ∷ []))),
    (==_iff id u).0 e,
    member-append u v (id ∷ []),
    ==_refl u,
  )
  | inr e ↦ ground (
    arith,
    unvisited-mark us v id (ground arith) n,
    member-append u v (id ∷ []),
    ==_iff id u,
    ==_iff u id,
  )
]

unvisited-length : (us v : List Text) → unvisited us v ≤ length us
unfolding unvisited
unvisited-length [] v = ground arith
unvisited-length (u ∷ us) v = ground (arith, unvisited-length us v)

-- The ids of the entries that have one are among those of the list.
abbrev pub AllIn : List Text → List DrsManifestEntry → Type 0
AllIn us [] = Unit
AllIn us (child ∷ contents) =
    (is_nil child.id ≡ false → member child.id us ≡ true) × AllIn us contents

module _ (R : Resolver) where
  -- Every manifest that can be read has its ids in the list.
  abbrev pub IsClosed : List Text → Type 0
  IsClosed us =
      (object : InternalDrsObject) (s : R.State) (body : List ℕ) (m : DrsManifest)
      → R.read_object_contents object s ≡ ok body
      → parse_drs_manifest R body ≡ ok m
      → AllIn us m.contents

  abbrev HasEnded : Option (Run R) → Type 0
  HasEnded none = ⊥
  HasEnded (some run) = Unit

  if-HasEnded :
      (q : Bool) (o o' : Option (Run R))
      → (q ≡ true → HasEnded o)
      → (q ≡ false → HasEnded o')
      → HasEnded (if q then o else o')
  if-HasEnded true o o' a b = a refl
  if-HasEnded false o o' a b = b refl

  module _ (us : List Text) (closed : IsClosed us) (fuel : ℕ)
      (ends : (id : Text) (r : ValidationReport) (s : R.State)
        → member id us ≡ true
        → unvisited us r.visited_drs_ids < fuel
        → HasEnded (validate_recursive R fuel id (r, s))) where
    then_visit-HasEnded :
        (r : ValidationReport) (o : Option (Run R)) (next : Run R → Option (Run R))
        → HasEnded o
        → Leaves R r o
        → ((r' : ValidationReport) (t : R.State) → Extends r r' → HasEnded (next (r', t)))
        → HasEnded (then_visit R o next)
    then_visit-HasEnded r none next e v n = absurd e
    then_visit-HasEnded r (some (r', t)) next e v n = n r' t v

    unvisited-Extends :
        (r r' : ValidationReport)
        → Extends r r'
        → unvisited us r.visited_drs_ids < fuel
        → unvisited us r'.visited_drs_ids < fuel
    unvisited-Extends r r' e h =
        ground (arith, unvisited-anti us r.visited_drs_ids r'.visited_drs_ids e.grows)

    validate_contents-HasEnded :
        (contents : List DrsManifestEntry) (r : ValidationReport) (s : R.State)
        → AllIn us contents
        → unvisited us r.visited_drs_ids < fuel
        → HasEnded (validate_contents R (validate_recursive R fuel) contents (r, s))
    unfolding validate_contents
    validate_contents-HasEnded [] r s a h = tt
    validate_contents-HasEnded (child ∷ contents) r s a h =
        if-HasEnded (is_nil child.id) _ _ (λ n. validate_contents-HasEnded contents r s a.1 h)
          (λ n.
            then_visit-HasEnded r (validate_recursive R fuel child.id (r, s)) _
              (ends child.id r s (a.0 n) h) (validate_recursive-Leaves R fuel child.id r s)
              (λ r' t e. validate_contents-HasEnded contents r' t a.1 (unvisited-Extends r r' e h)))

    validate_manifest-HasEnded :
        (object : InternalDrsObject) (m : Result Text DrsManifest) (r : ValidationReport)
        (s : R.State)
        → ((d : DrsManifest) → m ≡ ok d → AllIn us d.contents)
        → unvisited us r.visited_drs_ids < fuel
        → HasEnded (validate_manifest R (validate_recursive R fuel) object m (r, s))
    validate_manifest-HasEnded object (err e) r s a h = tt
    validate_manifest-HasEnded object (ok m) r s a h =
        validate_contents-HasEnded m.contents (add_issues object (validate m) r) _ (a m refl)
          (unvisited-Extends r _ (add_issues-Extends object (validate m) r) h)

    validate_contents_of-HasEnded :
        (object : InternalDrsObject) (body : Result Text (List ℕ)) (r : ValidationReport)
        (s : R.State)
        → R.read_object_contents object s ≡ body
        → unvisited us r.visited_drs_ids < fuel
        → HasEnded (validate_contents_of R (validate_recursive R fuel) object body (r, s))
    validate_contents_of-HasEnded object (err e) r s b h = tt
    validate_contents_of-HasEnded object (ok body) r s b h =
        validate_manifest-HasEnded object (parse_drs_manifest R body) r s
          (λ m p. closed object s body m b p) h

    validate_resolved-HasEnded :
        (id : Text) (o : Result Text (Option InternalDrsObject)) (r : ValidationReport)
        (s : R.State)
        → unvisited us r.visited_drs_ids < fuel
        → HasEnded (validate_resolved R (validate_recursive R fuel) id o (r, s))
    unfolding validate_manifest_object
    validate_resolved-HasEnded id (err e) r s h = tt
    validate_resolved-HasEnded id (ok none) r s h = tt
    validate_resolved-HasEnded id (ok (some object)) r s h =
        if-HasEnded object.is_manifest _ _
          (λ m. validate_contents_of-HasEnded object (R.read_object_contents object s) r s refl h)
          (λ m. tt)

  validate_recursive-HasEnded :
      (us : List Text) (fuel : ℕ) (id : Text) (r : ValidationReport) (s : R.State)
      → IsClosed us
      → member id us ≡ true
      → unvisited us r.visited_drs_ids < fuel
      → HasEnded (validate_recursive R fuel id (r, s))
  unfolding validate_recursive mark_visited
  validate_recursive-HasEnded us zero id r s c m h = absurd (ground arith)
  validate_recursive-HasEnded us (suc fuel) id r s c m h =
      if-HasEnded (is_nil id) _ _ (λ n. tt)
        (λ n.
          if-HasEnded (member id r.visited_drs_ids) _ _ (λ v. tt)
            (λ v.
              validate_resolved-HasEnded us c fuel
                (λ id' r' s' m' h'. validate_recursive-HasEnded us fuel id' r' s' c m' h') id
                (R.get_object_by_id id s) (mark_visited id r) s
                (ground (arith, unvisited-mark us r.visited_drs_ids id m v))))

  validate_object_total :
      (us : List Text) (fuel : ℕ) (id : Text) (s : R.State)
      → IsClosed us
      → member id us ≡ true
      → length us < fuel
      → HasEnded (validate_object R fuel id s)
  unfolding validate_object
  validate_object_total us fuel id s c m h =
      validate_recursive-HasEnded us fuel id (new_report id) s c m
        (ground (arith, unvisited-length us []))

  report_of :
      (fuel : ℕ) (id : Text) (s : R.State) (o : Option (Run R))
      → validate_object R fuel id s ≡ o
      → HasEnded o
      → (report : ValidationReport) × (t : R.State) × (validate_object R fuel id s
          ≡ some (report, t))
        × IsDistinct report.visited_drs_ids
  report_of fuel id s none v e = absurd e
  report_of fuel id s (some (report, t)) v e =
      (report, t, v, validate_object-IsDistinct R fuel id s report t v)

  -- Where the id and all ids of the manifests that can be read are among those of a list, a
  -- validation run ends with a report, on any fuel above the length of the list, and the report lists
  -- no id twice as visited.
  pub validate_object_lem :
      (us : List Text) (fuel : ℕ) (id : Text) (s : R.State)
      → IsClosed us
      → member id us ≡ true
      → length us < fuel
      → (report : ValidationReport) × (t : R.State) × (validate_object R fuel id s
          ≡ some (report, t))
        × IsDistinct report.visited_drs_ids
  validate_object_lem us fuel id s c m h =
      report_of fuel id s (validate_object R fuel id s) refl
        (validate_object_total us fuel id s c m h)
