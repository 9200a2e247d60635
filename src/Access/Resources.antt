-- ===== src/Access/Resources.antt =====
-- The resources that hold a replica of an object, and the names that an access method shows.
use irods_go_drs.Base.{◌≡◌, refl, Bool, false, ◌&&◌, ◌||◌, not, List, [], ◌∷◌}
use irods_go_drs.Base.{◌++◌, is_nil, arith, if◌then◌else◌, inl, inr, Bool-cases}
use irods_go_drs.Text.{
  Text, codes, ◌==◌, ==_iff, ==_comm, member, member-append, trim_space, trim_space_idem,
}
use irods_go_drs.Model.{InternalReplica, InternalDrsObject}
use irods_go_drs.Access.Config.{DrsConfig}

-- One name more, unless it is blank or was seen: the body of the loop, and the code behind it for the
-- object's own resource. `seen` and `result` hold the same names.
unfoldable pub add_resource : List Text → Text → List Text
add_resource result resource =
    if is_nil (trim_space resource) || member (trim_space resource) result
    then result
    else result ++ (trim_space resource ∷ [])

unfoldable pub replica_resources : List InternalReplica → List Text → List Text
replica_resources [] result = result
replica_resources (replica ∷ replicas) result =
    replica_resources replicas (add_resource result replica.resource_name)

unfoldable pub object_replica_resource_names : InternalDrsObject → List Text
object_replica_resource_names object =
    add_resource (replica_resources object.replicas []) object.resource_name

-- `primaryReplicaResourceName`
unfoldable pub first_resource : List InternalReplica → Text → Text
first_resource [] default = trim_space default
first_resource (replica ∷ replicas) default =
    let rest = first_resource replicas default in
    if is_nil (trim_space replica.resource_name) then rest else trim_space replica.resource_name

unfoldable pub primary_replica_resource_name : InternalDrsObject → Text
unfolding first_resource
primary_replica_resource_name object = first_resource object.replicas object.resource_name

unfoldable pub build_irods_cloud_name : InternalDrsObject → Text
build_irods_cloud_name object =
    if is_nil (trim_space object.irods_zone)
    then []
    else codes "irods:" ++ trim_space object.irods_zone

unfoldable pub build_bearer_auth_issuers : DrsConfig → List Text
build_bearer_auth_issuers cfg =
    if is_nil (trim_space cfg.oidc_url) then [] else trim_space cfg.oidc_url ∷ []

-- No text stands twice in the list, and none is blank.
abbrev pub IsNames : List Text → Type 0
IsNames [] = Unit
IsNames (t ∷ ts) = (trim_space t ≡ t) × (is_nil t ≡ false) × (member t ts ≡ false) × IsNames ts

IsNames-append :
    (ts : List Text) (t : Text)
    → IsNames ts
    → trim_space t ≡ t
    → is_nil t ≡ false
    → member t ts ≡ false
    → IsNames (ts ++ (t ∷ []))
unfolding member
IsNames-append [] t v e n m = (e, n, refl, tt)
IsNames-append (s ∷ ts) t v e n m = (
  v.0,
  v.1,
  ground (arith, v.2, member-append s ts (t ∷ []), ==_comm s t),
  IsNames-append ts t v.3 e n (ground arith),
)

add_resource-IsNames :
    (ts : List Text) (resource : Text) → IsNames ts → IsNames (add_resource ts resource)
unfolding add_resource
add_resource-IsNames ts resource v =
    elim (Bool-cases (is_nil (trim_space resource) || member (trim_space resource) ts)) [
      | inl skipped ↦ rw skipped v
      | inr new ↦ rw new (
          IsNames-append ts (trim_space resource) v (trim_space_idem resource) (ground arith)
            (ground arith))
    ]

replica_resources-IsNames :
    (replicas : List InternalReplica) (ts : List Text)
    → IsNames ts
    → IsNames (replica_resources replicas ts)
unfolding replica_resources
replica_resources-IsNames [] ts v = v
replica_resources-IsNames (r ∷ replicas) ts v =
    replica_resources-IsNames replicas (add_resource ts r.resource_name)
      (add_resource-IsNames ts r.resource_name v)

member-add_resource :
    (t resource : Text) (ts : List Text)
    → member t (add_resource ts resource)
      ≡ (member t ts || (t == trim_space resource && not (is_nil (trim_space resource))))
unfolding add_resource member
member-add_resource t resource ts =
    ground (arith, member-append t ts (trim_space resource ∷ []), ==_iff t (trim_space resource))

-- One of the replicas has the resource.
abbrev pub held_by : Text → List InternalReplica → Bool
held_by t [] = false
held_by t (r ∷ replicas) = t == trim_space r.resource_name || held_by t replicas

member-replica_resources :
    (t : Text) (replicas : List InternalReplica) (ts : List Text)
    → is_nil t ≡ false
    → member t (replica_resources replicas ts) ≡ (member t ts || held_by t replicas)
unfolding replica_resources
member-replica_resources t [] ts n = ground arith
member-replica_resources t (r ∷ replicas) ts n = ground (
  arith,
  member-replica_resources t replicas (add_resource ts r.resource_name) n,
  member-add_resource t r.resource_name ts,
  ==_iff t (trim_space r.resource_name),
)

-- The resource names of an object are trimmed, not blank and pairwise different, and a name that is not
-- blank is among them exactly if it is the trimmed resource name of a replica or of the object.
pub object_replica_resource_names_lem :
    (object : InternalDrsObject)
    → IsNames (object_replica_resource_names object)
      × ((t : Text)
          → is_nil t ≡ false
          → member t (object_replica_resource_names object)
            ≡ (held_by t object.replicas || t == trim_space object.resource_name))
unfolding object_replica_resource_names member
object_replica_resource_names_lem object = (
  add_resource-IsNames (replica_resources object.replicas []) object.resource_name
      (replica_resources-IsNames object.replicas [] tt),
  λ t n. ground (
    arith,
    member-add_resource t object.resource_name (replica_resources object.replicas []),
    member-replica_resources t object.replicas [] n,
    ==_iff t (trim_space object.resource_name),
  ),
)
