-- ===== src/Tests/Http.antt =====
-- Requests to the HTTP API.
use irods_go_drs.Base.{◌≡◌, refl, true, false, Option, none, some, List, [], ◌∷◌, if◌then◌else◌}
use irods_go_drs.Base.Exec.{Result, ok}
use irods_go_drs.Text.{Text, codes, ◌==◌, contains, equal_fold, has_prefix, trim_space, is_space}
use irods_go_drs.Http.Status.{GoError}
use irods_go_drs.Http.Urls.{UrlLibrary}
use irods_go_drs.Http.Authorization.{
  bearer, basic, cut_at, authorization_token_from_request,
  token_username_and_password_from_basic_auth_value,
}
use irods_go_drs.Http.Authenticate.{
  Authenticator, AccountRequest, account_request, route_auth_middleware, authenticated_route,
}
use irods_go_drs.Http.Authenticate.Trusted.{IsHanded, authenticated_route_lem}
use irods_go_drs.Http.Bulk.{
  BulkAuthorizations, authorizations_from_config, sort_ids, bulk_authorizations_from_ids,
}
use irods_go_drs.Http.Bulk.Answered.{IsAnswered, bulk_authorizations_from_ids-IsAnswered}
use irods_go_drs.Tests.Access.{configured}

abbrev decode : Text → Option Text
decode value = if value == codes "YTpi" then some (codes "a:b") else none

abbrev authenticate : Authenticator
authenticate token = ok (some (record { introspection = some true; username = codes " ann " }))

abbrev header : Text
header = codes " bearer  tok"

abbrev make_account : AccountRequest → Result GoError AccountRequest
make_account r = ok r

abbrev request : AccountRequest
request = record { auth_scheme = bearer; username = codes "ann"; basic_password = [] }

basic_example :
    authorization_token_from_request decode (codes "Basic YTpi")
    ≡ ok (record {
      scheme = basic;
      token = codes "b";
      username = codes "a";
      basic_password = codes "b";
    })
unfolding authorization_token_from_request token_username_and_password_from_basic_auth_value cut_at
    equal_fold trim_space is_space ◌==◌
basic_example = refl

route_succeeds :
    authenticated_route (some make_account) decode (some (some authenticate)) header
    ≡ ok (some request)
unfolding authenticated_route route_auth_middleware authorization_token_from_request account_request
    cut_at equal_fold trim_space is_space
route_succeeds = refl

authenticated_route_lem_example :
    IsHanded (some make_account) decode (some (some authenticate)) header (some request)
authenticated_route_lem_example =
    authenticated_route_lem (some make_account) decode (some (some authenticate)) header
      (some request) route_succeeds

-- Without the service context the handler is reached as well.
open_route : authenticated_route {Account = AccountRequest} none decode none [] ≡ ok none
unfolding authenticated_route
open_route = refl

abbrev urls : UrlLibrary
urls = record {
  urls = record { parse = λ t. none; to_text = λ u. u.host; resolve_reference = λ u v. v };
  has_user = λ u. false;
  path_escape = λ t. t;
  query_escape = λ t. t;
}

-- Of two ids the second is not found.
abbrev resolve : Text → Option GoError
resolve id =
    if id == codes "a"
    then none
    else some (record { text = codes "not found"; is_auth_error = false })

abbrev two_ids : List Text
two_ids = codes "a" ∷ codes "b" ∷ []

abbrev response : BulkAuthorizations
response = record {
  summary = record { requested = 2; resolved = 1; unresolved = 1 };
  resolved_drs_object = authorizations_from_config urls (codes "a") configured ∷ [];
  unresolved_ids = codes "b" ∷ [];
}

bulk_succeeds : bulk_authorizations_from_ids urls configured resolve two_ids ≡ ok response
unfolding bulk_authorizations_from_ids sort_ids contains has_prefix ◌==◌
bulk_succeeds = refl

bulk_authorizations_from_ids-IsAnswered_example :
    IsAnswered urls configured resolve two_ids response
bulk_authorizations_from_ids-IsAnswered_example =
    bulk_authorizations_from_ids-IsAnswered urls configured resolve two_ids response bulk_succeeds
