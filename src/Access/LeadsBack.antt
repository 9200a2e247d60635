-- ===== src/Access/LeadsBack.antt =====
-- What an HTTPS access method of an object promises: its id leads back to its region, or to the default.
use irods_go_drs.Base.{◌≡◌, ◌∙◌, ap, Bool, true, false}
use irods_go_drs.Base.{List, [], ◌∷◌, ◌++◌, is_nil, All, if◌then◌else◌, some, inl, inr, Bool-cases}
use irods_go_drs.Text.{Text, trim_space}
use irods_go_drs.Model.{InternalDrsObject}
use irods_go_drs.Access.Config.{DrsConfig, ResourceAffinityEntry}
use irods_go_drs.Access.Ids.{
  parse_https_access_id, build_https_affinity_access_id, build_https_default_access_id,
}
use irods_go_drs.Access.Ids.RoundTrip.{
  Provider, provider_name, parsed_id, parse-build_affinity, parse-build_default,
}
use irods_go_drs.Access.Resources.{
  IsNames, primary_replica_resource_name, object_replica_resource_names,
  object_replica_resource_names_lem,
}
use irods_go_drs.Access.Affinity.{
  host_for_resource_affinity, normalized_resource_affinity_for_lookup,
}
use irods_go_drs.Access.Methods.{
  DrsAccessMethod, UrlPackage, https_method, split_methods, build_provider_https_access_methods,
  resolve_https_access_base_url,
}

module _ (urls : UrlPackage) (cfg : DrsConfig) (object : InternalDrsObject) (p : Provider) where
  -- The access id of the method is parsed to the provider and the method's region, unless the parser
  -- refuses it for its retired prefix.
  abbrev pub LeadsBack : DrsAccessMethod → Type 0
  LeadsBack m = parse_https_access_id m.access_id ≡ parsed_id p m.region

  https_method-LeadsBack :
      (resource : Text)
      → trim_space resource ≡ resource
      → is_nil resource ≡ false
      → LeadsBack (
          https_method urls cfg object
            (build_https_affinity_access_id (provider_name p) resource)
            resource)
  unfolding https_method
  https_method-LeadsBack resource t n =
      parse-build_affinity p resource (rw t n) ∙ ap (parsed_id p) t

  All-append :
      (xs ys : List DrsAccessMethod)
      → All LeadsBack xs
      → All LeadsBack ys
      → All LeadsBack (xs ++ ys)
  All-append [] ys h k = k
  All-append (x ∷ xs) ys h k = (h.0, All-append xs ys h.1 k)

  -- The choice of the loop, for any two tests.
  abbrev AllBoth : List DrsAccessMethod × List DrsAccessMethod → Type 0
  AllBoth both = All LeadsBack both.0 × All LeadsBack both.1

  placed_LeadsBack :
      (blank matched : Bool) (m : DrsAccessMethod) (dedicated fallback : List DrsAccessMethod)
      → LeadsBack m
      → All LeadsBack dedicated
      → All LeadsBack fallback
      → AllBoth (
          if blank
          then (dedicated, fallback)
          else if matched
          then (m ∷ dedicated, fallback)
          else (dedicated, m ∷ fallback))
  placed_LeadsBack true matched m dedicated fallback h d f = (d, f)
  placed_LeadsBack false true m dedicated fallback h d f = ((h, d), f)
  placed_LeadsBack false false m dedicated fallback h d f = (d, (h, f))

  split_methods-LeadsBack :
      (affinities : List ResourceAffinityEntry) (resources : List Text)
      → IsNames resources
      → All LeadsBack (split_methods urls cfg object (provider_name p) affinities resources).0
        × All LeadsBack (split_methods urls cfg object (provider_name p) affinities resources).1
  unfolding split_methods
  split_methods-LeadsBack affinities [] v = (tt, tt)
  split_methods-LeadsBack affinities (r ∷ rs) v =
      placed_LeadsBack
        (is_nil (
          trim_space (
            resolve_https_access_base_url urls cfg.https_access_method_base_url
              (host_for_resource_affinity affinities r).0)))
        (host_for_resource_affinity affinities r).1
        (https_method urls cfg object (build_https_affinity_access_id (provider_name p) r) r)
        (split_methods urls cfg object (provider_name p) affinities rs).0
        (split_methods urls cfg object (provider_name p) affinities rs).1
        (https_method-LeadsBack r v.0 v.1) (split_methods-LeadsBack affinities rs v.3).0
        (split_methods-LeadsBack affinities rs v.3).1

  chosen_LeadsBack :
      (none_held : Bool) (dedicated fallback : List DrsAccessMethod)
      → All LeadsBack dedicated
      → All LeadsBack fallback
      → All LeadsBack (if none_held then [] else dedicated ++ fallback)
  chosen_LeadsBack true dedicated fallback d f = tt
  chosen_LeadsBack false dedicated fallback d f = All-append dedicated fallback d f

  configured_LeadsBack :
      is_nil (normalized_resource_affinity_for_lookup cfg.https_resource_affinity) ≡ false
      → All LeadsBack (build_provider_https_access_methods urls cfg object (provider_name p))
  unfolding build_provider_https_access_methods
  configured_LeadsBack configured = rw configured (
      chosen_LeadsBack (is_nil (object_replica_resource_names object))
        (split_methods urls cfg object (provider_name p)
          (normalized_resource_affinity_for_lookup cfg.https_resource_affinity)
          (object_replica_resource_names object)).0
        (split_methods urls cfg object (provider_name p)
          (normalized_resource_affinity_for_lookup cfg.https_resource_affinity)
          (object_replica_resource_names object)).1
        all.0 all.1)
    where
      all : AllBoth (
          split_methods urls cfg object
            (provider_name p)
            (normalized_resource_affinity_for_lookup cfg.https_resource_affinity)
            (object_replica_resource_names object))
      all =
          split_methods-LeadsBack
            (normalized_resource_affinity_for_lookup cfg.https_resource_affinity)
            (object_replica_resource_names object) (object_replica_resource_names_lem object).0

  -- The access id of the method is parsed to the provider without a resource.
  abbrev pub LeadsToDefault : DrsAccessMethod → Type 0
  LeadsToDefault m =
      parse_https_access_id m.access_id
      ≡ some (record { provider = provider_name p; resource = [] })

  default_LeadsToDefault :
      (no_resources no_region : Bool) (region : Text)
      → All LeadsToDefault (
          if no_resources
          then []
          else if no_region
          then []
          else https_method urls cfg object (build_https_default_access_id (provider_name p)) region
            ∷ [])
  unfolding https_method
  default_LeadsToDefault true no_region region = tt
  default_LeadsToDefault false true region = tt
  default_LeadsToDefault false false region = (parse-build_default p, tt)

  unconfigured_LeadsToDefault :
      is_nil (normalized_resource_affinity_for_lookup cfg.https_resource_affinity) ≡ true
      → All LeadsToDefault (build_provider_https_access_methods urls cfg object (provider_name p))
  unfolding build_provider_https_access_methods
  unconfigured_LeadsToDefault bare = rw bare (
      default_LeadsToDefault (is_nil (object_replica_resource_names object))
        (is_nil (primary_replica_resource_name object)) (primary_replica_resource_name object))

  -- The access id of an HTTPS method leads back to what the method stands for: the default, or a region.
  abbrev pub LeadsBackWith : (is_default : Bool) → DrsAccessMethod → Type 0
  LeadsBackWith true m = LeadsToDefault m
  LeadsBackWith false m = LeadsBack m

  -- The access id of every HTTPS method of an object, for a supported provider, is parsed back to that
  -- provider: where no resource affinities are configured, without a resource, and otherwise with the
  -- method's region, except that under the first provider an id whose region begins with the retired
  -- prefix is refused.
  pub build_provider_https_access_methods-LeadsBack :
      All
        (LeadsBackWith
          (is_nil (normalized_resource_affinity_for_lookup cfg.https_resource_affinity)))
        (build_provider_https_access_methods urls cfg object (provider_name p))
  build_provider_https_access_methods-LeadsBack =
      elim (Bool-cases
        (is_nil (normalized_resource_affinity_for_lookup cfg.https_resource_affinity))) [
          | inl bare ↦ rw bare (unconfigured_LeadsToDefault bare)
          | inr configured ↦ rw configured (configured_LeadsBack configured)
        ]
