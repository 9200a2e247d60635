-- ===== src/Irods/Actions.antt =====
-- The client's calls as actions of the service, and the small helpers over them.
use irods_go_drs.Base.{Option, none, some, List, [], ◌∷◌, is_nil}
use irods_go_drs.Base.{if◌then◌else◌}
use irods_go_drs.Base.Exec.{Result, ok, err, Exec}
use irods_go_drs.Text.{Text, codes, trim_space, trim_prefix}
use irods_go_drs.Model.{Entry}
use irods_go_drs.Irods.Interface.{Client, ClientError, not_found, failed, Error, client}

-- The error of the client inside the service's error.
abbrev pub wrap : {A : Type 0} → Result ClientError A → Result Error A
wrap (ok a) = ok a
wrap (err e) = err (client e)

-- A result whose missing file counts as an empty list: `err != nil && !isFileNotFoundError(err)`.
abbrev pub or_empty : {A : Type 0} → Result ClientError (List A) → Result Error (List A)
or_empty (ok a) = ok a
or_empty (err not_found) = ok []
or_empty (err (failed e)) = err (client (failed e))

module _ (C : Client) where
  abbrev pub Action : Type 0 → Type 0
  Action A = Exec C.State Error A

  -- A call that changes the state.
  abbrev pub call : {A : Type 0} → Exec C.State ClientError A → Action A
  call m s = let r = m s in (wrap r.0, r.1)

  -- `compoundStat`, and `statEntry`, which calls it.
  unfoldable pub stat_entry : Text → C.State → Result ClientError (Option Entry)
  stat_entry p s = elim C.stat [ none ↦ C.stat_file p s | some stat ↦ stat p s ]

  -- `irodsZoneForPath`
  unfoldable pub irods_zone_for_path : Text → C.State → Text
  irods_zone_for_path p s = elim (C.account s) [
    | none ↦ zone_of_path
    | some a ↦ if is_nil a.client_zone then zone_of_path else a.client_zone
  ]
    where
      zone_of_path : Text
      zone_of_path = elim (C.path_zone p) [ none ↦ [] | some zone ↦ zone ]

  -- `rootCollectionPath`
  unfoldable pub root_collection_path : C.State → Text
  unfolding trim_space trim_prefix
  root_collection_path s = elim (C.account s) [
    | none ↦ codes "/"
    | some a ↦
        if is_nil (trim_space a.client_zone)
        then codes "/"
        else b'/' ∷ trim_prefix (trim_space a.client_zone) (codes "/")
  ]
