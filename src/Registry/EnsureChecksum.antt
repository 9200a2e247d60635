-- ===== src/Registry/EnsureChecksum.antt =====
-- `ensureDataObjectChecksum`: the checksum of the first replica that has one, or the one that the
-- client registers.
use irods_go_drs.Base.{◌≡◌, Option, none, some, List, [], ◌∷◌, arith}
use irods_go_drs.Base.Exec.{Result, ok, err}
use irods_go_drs.Text.{Text}
use irods_go_drs.Model.{Avu, IrodsChecksum, IrodsReplica, InternalChecksum}
use irods_go_drs.Irods.Interface.{Client, by_method, by_connection, unsupported}
use irods_go_drs.Irods.Stored.{stored, IsLawful}
use irods_go_drs.Irods.Actions.{Action, wrap}
use irods_go_drs.Objects.Checksum.{checksum_from_replica, checksum_from_irods_checksum}

unfoldable pub first_checksum : List (Option IrodsReplica) → Option InternalChecksum
first_checksum [] = none
first_checksum (replica ∷ replicas) =
    let rest = first_checksum replicas in
    elim (checksum_from_replica replica) [ none ↦ rest | some c ↦ some c ]

converted : {E : Type 0} → Result E (Option IrodsChecksum) → Result E (Option InternalChecksum)
converted (ok c) = ok (checksum_from_irods_checksum c)
converted (err e) = err e

module _ (C : Client) where
  unfoldable pub register_checksum : Text → Action C (Option InternalChecksum)
  unfolding converted checksum_from_irods_checksum
  register_checksum path s = elim C.ensure_checksum [
    | by_method f ↦ (converted (wrap (f path s).0), (f path s).1)
    | by_connection f ↦ (converted (wrap (f path s).0), (f path s).1)
    | unsupported ↦ (ok none, s)
  ]

  unfoldable pub ensure_data_object_checksum :
      Text → List (Option IrodsReplica) → Action C (Option InternalChecksum)
  unfolding register_checksum first_checksum checksum_from_replica
  ensure_data_object_checksum path replicas s = elim (first_checksum replicas) [
    | none ↦ register_checksum path s
    | some c ↦ (ok (some c), s)
  ]

  pub stored-ensure_data_object_checksum :
      (L : IsLawful C) (path : Text) (replicas : List (Option IrodsReplica)) (q : Text) (x : Avu)
      (s : C.State)
      → stored C q x (ensure_data_object_checksum path replicas s).1 ≡ stored C q x s
  unfolding ensure_data_object_checksum
  stored-ensure_data_object_checksum L path replicas q x s =
      ground (arith, L.stored-ensure path q x s)
