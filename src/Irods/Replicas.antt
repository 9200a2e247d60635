-- ===== src/Irods/Replicas.antt =====
-- `entryWithAllReplicas` of drs-support/drs_to_irods_service.go: a data object with all of its replicas.
use irods_go_drs.Base.{◌||◌, Option, none, some, is_nil, if◌then◌else◌}
use irods_go_drs.Base.Exec.{Result, ok, err}
use irods_go_drs.Text.{trim_space}
use irods_go_drs.Model.{Entry}
use irods_go_drs.Irods.Interface.{
  Client, ClientError, Error, client, by_method, by_connection, unsupported,
}

-- The answer of a method: a nil entry keeps the one that was asked for.
abbrev pub full_entry : Entry → Result ClientError (Option Entry) → Result Error Entry
full_entry entry (err e) = err (client e)
full_entry entry (ok none) = ok entry
full_entry entry (ok (some full)) = ok full

-- The answer of the metadata connection: so does a data object without replicas.
abbrev pub connected_entry : Entry → Result ClientError (Option Entry) → Result Error Entry
connected_entry entry (err e) = err (client e)
connected_entry entry (ok none) = ok entry
connected_entry entry (ok (some full)) = if is_nil full.replicas then ok entry else ok full

module _ (C : Client) where
  unfoldable pub entry_with_all_replicas : Entry → C.State → Result Error Entry
  unfolding trim_space
  entry_with_all_replicas entry s =
      if is_nil (trim_space entry.path) || entry.is_dir then ok entry else elim C.all_replicas [
        | by_method f ↦ full_entry entry (f entry.path s)
        | by_connection f ↦ connected_entry entry (f entry.path s)
        | unsupported ↦ ok entry
      ]
