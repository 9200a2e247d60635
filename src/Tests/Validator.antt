-- ===== src/Tests/Validator.antt =====
-- A validation of a manifest that lists itself.
use irods_go_drs.Base.{ℕ, ◌≡◌, refl, true, none, some, List, [], ◌∷◌, arith}
use irods_go_drs.Base.Exec.{ok}
use irods_go_drs.Text.{Text, codes, ◌==◌, member}
use irods_go_drs.Model.{InternalDrsObject}
use irods_go_drs.Validator.{ValidationReport, Resolver, validate_object, parse_drs_manifest}
use irods_go_drs.Validator.Manifest.{DrsManifest, with_default_schema}
use irods_go_drs.Validator.Visits.{IsDistinct}
use irods_go_drs.Validator.Ends.{AllIn, validate_object_lem}

abbrev manifest_object : InternalDrsObject
manifest_object = record {
  id = codes "m";
  absolute_path = codes "/z/m";
  irods_zone = codes "z";
  resource_name = [];
  replicas = [];
  size = 2;
  created_time = 100;
  updated_time = 200;
  version = [];
  mime_type = [];
  is_manifest = true;
  checksum = none;
  contents = [];
  description = [];
  aliases = [];
}

abbrev manifest : DrsManifest
manifest = record {
  schema = [];
  type = [];
  description = [];
  contents =
      record { id = codes "m"; name = codes "self"; role = [] }
      ∷ record { id = []; name = codes "nothing"; role = [] }
      ∷ [];
}

abbrev resolver : Resolver
resolver = record {
  State = Unit;
  get_object_by_id = λ id s. ok (some manifest_object);
  read_object_contents = λ object s. ok (codes "{}");
  observe_object_state = λ object s. ok none;
  update_object_metadata = λ object observed s. (ok tt, s);
  object_changed = λ object s. s;
  unmarshal = λ bytes. ok manifest;
  format_time = λ t. [];
}

abbrev ids : List Text
ids = codes "m" ∷ []

closed_body :
    (body : List ℕ) (m : DrsManifest)
    → parse_drs_manifest resolver body ≡ ok m
    → AllIn ids m.contents
unfolding parse_drs_manifest with_default_schema member ◌==◌
closed_body [] m h = absurd (ground arith)
closed_body (b ∷ body) m h = rw contents (λ n. refl, (λ n. absurd (ground arith), tt))
  where
    contents : m.contents ≡ manifest.contents
    contents = ground arith

validate_object_lem_example :
    (report : ValidationReport) × (t : Unit {0}) × (validate_object resolver 2 (codes "m") tt
      ≡ some (report, t))
    × IsDistinct report.visited_drs_ids
unfolding member ◌==◌
validate_object_lem_example =
    validate_object_lem resolver ids 2 (codes "m") tt (λ object s body m r p. closed_body body m p)
      refl (omega arith)
