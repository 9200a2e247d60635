-- ===== src/Http/Status.antt =====
-- The status of an error and the message that the client gets (internal/api_objects.go). The text of an
-- error decides; `types.IsAuthError` of the client library is an argument.
use irods_go_drs.Base.{ℕ, Bool, ◌||◌, List, [], ◌∷◌, any, eqb, if◌then◌else◌}
use irods_go_drs.Text.{Text, codes, contains, to_lower}

-- An error of Go: its text, and whether the client library calls it one of authentication.
pub record GoError : Type 0 where
  pub text : Text
  pub is_auth_error : Bool

abbrev pub status_ok : ℕ
status_ok = 200

abbrev pub bad_request : ℕ
bad_request = 400

abbrev pub unauthorized : ℕ
unauthorized = 401

abbrev pub forbidden : ℕ
forbidden = 403

abbrev pub not_found : ℕ
not_found = 404

abbrev pub internal_server_error : ℕ
internal_server_error = 500

abbrev pub not_implemented : ℕ
not_implemented = 501

abbrev pub authorization_markers : List Text
authorization_markers =
    codes "cat_no_access_permission"
    ∷ codes "cat_insufficient_privilege_level"
    ∷ codes "permission denied"
    ∷ codes "authorization error"
    ∷ []

abbrev pub authentication_markers : List Text
authentication_markers =
    codes "authentication error"
    ∷ codes "cat_invalid_authentication"
    ∷ codes "pam_auth_password_failed"
    ∷ codes "remote_server_authentication_failure"
    ∷ []

unfoldable pub is_irods_authorization_failure : GoError → Bool
is_irods_authorization_failure e = any (contains (to_lower e.text)) authorization_markers

unfoldable pub is_irods_auth_failure : GoError → Bool
is_irods_auth_failure e = e.is_auth_error || any (contains (to_lower e.text)) authentication_markers

-- For an error that is not nil.
unfoldable pub route_error_status : GoError → ℕ
route_error_status e =
    if is_irods_auth_failure e
    then unauthorized
    else if is_irods_authorization_failure e
    then forbidden
    else if contains e.text (codes "not found")
    then not_found
    else if contains e.text (codes "required")
    then bad_request
    else internal_server_error

unfoldable pub route_operation_client_message : ℕ → Text → Text
route_operation_client_message status fallback =
    if eqb status unauthorized
    then codes "iRODS authentication failed"
    else if eqb status forbidden
    then codes "iRODS authorization failed"
    else if eqb status not_found
    then codes "DRS object not found"
    else if eqb status bad_request
    then codes "invalid request"
    else if eqb status internal_server_error
    then codes "internal server error"
    else fallback

-- The message of `writeRouteFileSystemError`.
unfoldable pub route_file_system_message : ℕ → Text
route_file_system_message status =
    if eqb status unauthorized
    then codes "iRODS authentication failed"
    else if eqb status forbidden
    then codes "iRODS authorization failed"
    else codes "failed to connect to iRODS"
