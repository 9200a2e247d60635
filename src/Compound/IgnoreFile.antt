-- ===== src/Compound/IgnoreFile.antt =====
-- `AddDRSIgnoreTemplate` of drs-support/compound_create.go: the control file of a compound object. The
-- files of the client library, and the template that is built in, are parameters.
use irods_go_drs.Base.{Option, if◌then◌else◌}
use irods_go_drs.Base.Exec.{Result, ok, err, Exec, raise, reads, pure, ◌>>=◌, ◌>>◌}
use irods_go_drs.Text.{Text, trim_space}
use irods_go_drs.Model.{Entry}
use irods_go_drs.Irods.Interface.{
  Client, ClientError, not_found, failed, Error, path_required, ignore_exists,
}
use irods_go_drs.Irods.Actions.{Action, call, stat_entry}
use irods_go_drs.Registry.Create.{is_root_or_empty}
use irods_go_drs.Compound.Create.{ignore_path, check_root}

-- `CreateFile`, and `Write` and `Close` of its handle.
pub record FileLibrary (C : Client) : Type 1 where
  pub Handle : Type 0
  pub create_file : Text → Exec C.State ClientError Handle
  pub write : Handle → Text → Exec C.State ClientError (Unit {0})
  pub close : Handle → Exec C.State ClientError (Unit {0})

module _ (C : Client) (files : FileLibrary C) (template : Text) where
  -- A file that is there is an error, and so is one that cannot be told.
  abbrev pub check_absent : Text → Result ClientError (Option Entry) → Result Error (Unit {0})
  check_absent path (ok found) = err (ignore_exists path)
  check_absent path (err not_found) = ok tt
  check_absent path (err (failed e)) = err (Error.client (failed e))

  -- The handle is closed on the way out of a write that failed, whose error stays.
  abbrev pub after_write :
      files.Handle → Result Error (Unit {0}) × C.State → Result Error (Unit {0}) × C.State
  after_write handle (err e, s) = (err e, (files.close handle s).1)
  after_write handle (ok u, s) = call C (files.close handle) s

  unfoldable pub write_template : files.Handle → Action C (Unit {0})
  write_template handle s = after_write handle (call C (files.write handle template) s)

  unfoldable pub add_drs_ignore_template : Text → Action C Text
  add_drs_ignore_template collection_path =
      let root = C.correct_path (trim_space collection_path) in
      if is_root_or_empty root then raise path_required else do
        reads (λ s. check_root C root (stat_entry C root s))
        reads (λ s. check_absent (ignore_path root) (stat_entry C (ignore_path root) s))
        handle ← call C (files.create_file (ignore_path root))
        write_template handle
        pure (ignore_path root)
