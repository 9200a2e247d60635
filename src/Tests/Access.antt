-- ===== src/Tests/Access.antt =====
-- Access methods and buckets of a concrete object.
use irods_go_drs.Base.{◌≡◌, refl, true, false, ◌&&◌, ◌||◌, not, Option, some, List, [], ◌∷◌}
use irods_go_drs.Base.{is_nil, All}
use irods_go_drs.Text.{Text, codes, ◌==◌, trim_space, is_space, member}
use irods_go_drs.Model.{Avu, InternalReplica, InternalDrsObject}
use irods_go_drs.Objects.FromEntry.{bare_object}
use irods_go_drs.Access.Config.{ResourceAffinityEntry, DrsConfig}
use irods_go_drs.Access.Ids.{build_https_affinity_access_id, parse_https_access_id}
use irods_go_drs.Access.Ids.RoundTrip.{go_rest, provider_name, parsed_id, parse-build_affinity}
use irods_go_drs.Access.Resources.{
  IsNames, held_by, object_replica_resource_names, object_replica_resource_names_lem,
}
use irods_go_drs.Access.Affinity.{
  normalized_resource_affinity_for_lookup, is_named, host_for_resource_affinity,
  host_for_resource_affinity-matched,
}
use irods_go_drs.Access.Buckets.{s3_bucket_avu_attribute, bucket_names, buckets_of_metadata}
use irods_go_drs.Access.Buckets.Dedup.{IsIncreasing, buckets_of_metadata_lem}
use irods_go_drs.Access.Methods.{UrlPackage, build_provider_https_access_methods}
use irods_go_drs.Access.LeadsBack.{LeadsBackWith, build_provider_https_access_methods-LeadsBack}
use irods_go_drs.Tests.Memory.{data_object}

parse-build_affinity_example :
    parse_https_access_id (build_https_affinity_access_id (provider_name go_rest) (codes " demo "))
    ≡ parsed_id go_rest (trim_space (codes " demo "))
unfolding trim_space is_space
parse-build_affinity_example = parse-build_affinity go_rest (codes " demo ") refl

abbrev replica_on : Text → InternalReplica
replica_on resource = record {
  resource_name = resource;
  resource_hierarchy = resource;
  path = codes "/vault/a";
  status = codes "1";
}

abbrev replicated : InternalDrsObject
replicated = record (bare_object (data_object (codes "/z/c/a") (codes "a")) (codes "z")) {
  replicas = replica_on (codes "demo ") ∷ replica_on [] ∷ replica_on (codes "tape") ∷ [];
  resource_name = codes "demo";
}

object_replica_resource_names_lem_example :
    IsNames (object_replica_resource_names replicated)
    × ((t : Text)
        → is_nil t ≡ false
        → member t (object_replica_resource_names replicated)
          ≡ (held_by t replicated.replicas || t == trim_space (codes "demo")))
object_replica_resource_names_lem_example = object_replica_resource_names_lem replicated

abbrev affinities : List ResourceAffinityEntry
affinities =
    record { host = codes "h1"; resources = codes "demo" ∷ [] }
    ∷ record { host = codes "h2"; resources = codes "*" ∷ [] }
    ∷ []

host_for_resource_affinity-matched_example :
    (host_for_resource_affinity affinities (codes " demo")).1 ≡ (
      not (is_nil (trim_space (codes " demo"))) && is_named affinities (trim_space (codes " demo")))
host_for_resource_affinity-matched_example =
    host_for_resource_affinity-matched affinities (codes " demo")

-- A reader of addresses that takes each text for a host.
abbrev plain_urls : UrlPackage
plain_urls = record {
  parse = λ t. some (record {
    scheme = codes "https";
    user = [];
    host = t;
    path = [];
    raw_query = [];
    fragment = [];
  });
  to_text = λ u. u.host;
  resolve_reference = λ u v. v;
}

abbrev pub configured : DrsConfig
configured = record {
  irods_access_method_supported = true;
  file_access_method_supported = false;
  https_access_method_supported = true;
  s3_access_method_supported = false;
  https_access_implementation = [];
  https_access_method_base_url = codes "base";
  s3_access_method_base_url = [];
  local_access_root_path = [];
  https_resource_affinity = affinities;
  oidc_url = [];
  oidc_realm = [];
  public_url = codes "https://drs.example.org";
  https_access_use_ticket = false;
  default_ticket_lifetime_minutes = 60;
  default_ticket_use_limit = 0;
  irods_access_host = [];
  irods_access_port = 0;
  irods_host = codes "irods";
  irods_port = 1247;
  irods_zone = codes "z";
}

build_provider_https_access_methods-LeadsBack_example :
    All
      (LeadsBackWith plain_urls configured replicated go_rest false)
      (build_provider_https_access_methods plain_urls configured replicated (provider_name go_rest))
unfolding normalized_resource_affinity_for_lookup trim_space is_space
build_provider_https_access_methods-LeadsBack_example =
    build_provider_https_access_methods-LeadsBack plain_urls configured replicated go_rest

abbrev bucket_avu : Text → Option Avu
bucket_avu name = some (record { name = s3_bucket_avu_attribute; value = name; units = [] })

abbrev bucket_avus : List (Option Avu)
bucket_avus =
    bucket_avu (codes "my-data") ∷ bucket_avu (codes "abc") ∷ bucket_avu (codes "my-data") ∷ []

buckets_of_metadata_lem_example :
    IsIncreasing (buckets_of_metadata bucket_avus)
    × ((t : Text)
        → member t (buckets_of_metadata bucket_avus) ≡ member t (bucket_names bucket_avus))
buckets_of_metadata_lem_example = buckets_of_metadata_lem bucket_avus
