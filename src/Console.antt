-- ===== src/Console.antt =====
-- What the console decides before it calls the library (tools/drs-console/drscmd.go): the scope of a
-- listing, whether a target is a path or an id, and the path that it stands for. The iRODS environment is
-- an argument.
use irods_go_drs.Base.{Bool, ◌&&◌, ◌||◌, Option, none, some, List, [], ◌∷◌, is_nil, if◌then◌else◌}
use irods_go_drs.Base.Exec.{Result, ok, err}
use irods_go_drs.Text.{Text, codes, trim_space, has_prefix, member}
use irods_go_drs.Text.FilePath.{clean, join}
use irods_go_drs.Listing.Scope.{ListingScope, all_scope, objects_scope, compound_scope}

-- `none` is the error of more than one scope.
unfoldable pub resolve_drs_list_scope : Bool → Bool → Bool → Option ListingScope
resolve_drs_list_scope scope_all scope_objects scope_compound =
    if scope_all && scope_objects
      || (scope_all && scope_compound || scope_objects && scope_compound)
    then none
    else if scope_objects
    then some objects_scope
    else if scope_compound
    then some compound_scope
    else some all_scope

unfoldable pub looks_like_irods_path : Text → Bool
looks_like_irods_path target =
    has_prefix (trim_space target) (codes "/") || has_prefix (trim_space target) (codes ".")

pub data TargetError : Type 0 where
  path_and_id path_missing no_environment : TargetError
  session_failed : Text → TargetError

-- The session: its working directory, the home that replaces a blank one, and how saving that ends.
pub record Session : Type 0 where
  pub current_working_dir : Result Text Text
  pub home_dir_path : Text
  pub save_session : Result Text (Unit {0})

abbrev pub saved : Text → Result Text (Unit {0}) → Result TargetError Text
saved home (err e) = err (session_failed e)
saved home (ok u) = ok home

-- `establishCwd`, where an environment is configured.
unfoldable pub establish_cwd : Session → Text → Result TargetError Text
establish_cwd session cwd =
    if is_nil (trim_space cwd) then saved session.home_dir_path session.save_session else ok cwd

abbrev pub cwd_of : Session → Result Text Text → Result TargetError Text
cwd_of session (err e) = err (session_failed e)
cwd_of session (ok cwd) = establish_cwd session cwd

unfoldable pub current_irods_working_dir : Session → Result TargetError Text
current_irods_working_dir session = cwd_of session session.current_working_dir

abbrev pub below : Text → Result TargetError Text → Result TargetError Text
below target (err e) = err e
below target (ok cwd) = ok (clean (join cwd target))

abbrev pub relative_path : Text → Option Session → Result TargetError Text
relative_path target none = err no_environment
relative_path target (some session) = below target (current_irods_working_dir session)

unfoldable pub resolve_irods_path : Option Session → Text → Result TargetError Text
resolve_irods_path session target =
    let t = trim_space target in
    if is_nil t
    then err path_missing
    else if has_prefix t (codes "/")
    then ok (clean t)
    else relative_path t session

pub data Target : Type 0 where
  by_path by_id : Text → Target

abbrev pub path_target : Result TargetError Text → Result TargetError Target
path_target (err e) = err e
path_target (ok path) = ok (by_path path)

-- The lookup that `getDrsObject` goes on with.
unfoldable pub target_of : Option Session → Text → Bool → Bool → Result TargetError Target
target_of session target force_path force_id =
    if force_path && force_id
    then err path_and_id
    else if force_path
    then path_target (resolve_irods_path session target)
    else if force_id
    then ok (by_id (trim_space target))
    else if looks_like_irods_path target
    then path_target (resolve_irods_path session target)
    else ok (by_id (trim_space target))

-- The loop of `normalizedCLIStringSlice`, with the values seen so far.
unfoldable pub normalized_from : List Text → List Text → List Text
normalized_from seen [] = []
normalized_from seen (value ∷ values) =
    let t = trim_space value in
    let skipped = normalized_from seen values in
    let kept = t ∷ normalized_from (t ∷ seen) values in
    if is_nil t || member t seen then skipped else kept

unfoldable pub normalized_cli_string_slice : List Text → List Text
normalized_cli_string_slice values = normalized_from [] values
