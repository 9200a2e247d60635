-- ===== src/Access/Affinity.antt =====
-- Which host serves a resource: the first affinity entry that names it, or else the first default
-- entry, which names no resource or the wildcard.
use irods_go_drs.Base.{
  ◌≡◌, refl, Bool, true, false, ◌&&◌, ◌||◌, not, Option, none, some, List, [], ◌∷◌,
}
use irods_go_drs.Base.{is_nil, any, arith, if◌then◌else◌}
use irods_go_drs.Text.{Text, codes, ◌==◌, trim_space}
use irods_go_drs.Access.Config.{ResourceAffinityEntry, normalize_string_slice, DrsConfig}

-- `normalizedResourceAffinityForLookup`: an entry without a host is dropped.
unfoldable pub normalized_resource_affinity_for_lookup :
    List ResourceAffinityEntry → List ResourceAffinityEntry
normalized_resource_affinity_for_lookup [] = []
normalized_resource_affinity_for_lookup (entry ∷ entries) =
    let rest = normalized_resource_affinity_for_lookup entries in
    let normalized : ResourceAffinityEntry = record {
      host = trim_space entry.host;
      resources = normalize_string_slice entry.resources;
    } in
    if is_nil (trim_space entry.host) then rest else normalized ∷ rest

unfoldable pub contains_resource_affinity_match : List Text → Text → Bool
contains_resource_affinity_match [] target = false
contains_resource_affinity_match (resource ∷ resources) target =
    let r = trim_space resource in
    not (is_nil r) && (not (r == codes "*") && r == trim_space target)
    || contains_resource_affinity_match resources target

unfoldable pub contains_resource_affinity_wildcard : List Text → Bool
contains_resource_affinity_wildcard [] = false
contains_resource_affinity_wildcard (resource ∷ resources) =
    trim_space resource == codes "*" || contains_resource_affinity_wildcard resources

unfoldable pub is_default_resource_affinity : List Text → Bool
is_default_resource_affinity resources =
    is_nil resources || contains_resource_affinity_wildcard resources

-- The first loop of `hostForResourceAffinity`.
unfoldable pub matching_host : List ResourceAffinityEntry → Text → Option Text
matching_host [] resource = none
matching_host (entry ∷ entries) resource =
    let rest = matching_host entries resource in
    if contains_resource_affinity_match entry.resources resource then some entry.host else rest

-- The second loop.
unfoldable pub default_host : List ResourceAffinityEntry → Option Text
default_host [] = none
default_host (entry ∷ entries) =
    let rest = default_host entries in
    if is_default_resource_affinity entry.resources then some entry.host else rest

unfoldable pub host_for_resource_affinity : List ResourceAffinityEntry → Text → Text × Bool
host_for_resource_affinity affinities resource =
    let r = trim_space resource in
    if is_nil r then ([], false) else elim (matching_host affinities r) [
      | some host ↦ (host, true)
      | none ↦ elim (default_host affinities) [ some host ↦ (host, false) | none ↦ ([], false) ]
    ]

unfoldable pub resolve_affinity_host_for_resource : DrsConfig → Text → Text
resolve_affinity_host_for_resource cfg resource =
    trim_space
      (host_for_resource_affinity
        (normalized_resource_affinity_for_lookup cfg.https_resource_affinity) resource).0

abbrev is_some : Option Text → Bool
is_some none = false
is_some (some host) = true

-- Some entry names the resource.
abbrev pub is_named : List ResourceAffinityEntry → Text → Bool
is_named affinities resource =
    any (λ e. contains_resource_affinity_match e.resources resource) affinities

matching_host-is_named :
    (affinities : List ResourceAffinityEntry) (resource : Text)
    → is_some (matching_host affinities resource) ≡ is_named affinities resource
unfolding matching_host
matching_host-is_named [] resource = refl
matching_host-is_named (e ∷ es) resource = ground (arith, matching_host-is_named es resource)

-- A resource is reported as matched exactly if its name is not blank and an entry names it.
pub host_for_resource_affinity-matched :
    (affinities : List ResourceAffinityEntry) (resource : Text)
    → (host_for_resource_affinity affinities resource).1
      ≡ (not (is_nil (trim_space resource)) && is_named affinities (trim_space resource))
unfolding host_for_resource_affinity
host_for_resource_affinity-matched affinities resource =
    ground (arith, matching_host-is_named affinities (trim_space resource))

-- The wildcard alone names no resource.
contains_resource_affinity_match_wildcard :
    (target : Text) → contains_resource_affinity_match (codes "*" ∷ []) target ≡ false
unfolding contains_resource_affinity_match ◌==◌ trim_space
contains_resource_affinity_match_wildcard target = refl
