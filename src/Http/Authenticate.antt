-- ===== src/Http/Authenticate.antt =====
-- Who a request is from (internal/auth_middleware.go, internal/auth_support.go and
-- internal/service_context.go): the middleware in front of a handler, the check of a bearer token, and
-- the iRODS account of the request. The verifier of tokens and the maker of accounts are libraries, and
-- arguments.
pub mod Trusted
use irods_go_drs.Base.{
  ℕ, Bool, true, false, ◌&&◌, Option, none, some, List, [], ◌∷◌, is_nil, if◌then◌else◌,
}
use irods_go_drs.Base.Exec.{Result, ok, err}
use irods_go_drs.Text.{Text, codes, trim_space}
use irods_go_drs.Http.Status.{GoError, unauthorized, internal_server_error}
use irods_go_drs.Http.Authorization.{
  Scheme, bearer, basic, Credentials, HeaderError, authorization_token_from_request,
}

-- `oidcverify.VerifiedToken`
pub record VerifiedToken : Type 0 where
  pub username : Text
  pub active : Bool

-- `AuthenticatedToken`; its introspection holds whether the token is active.
pub record AuthenticatedToken : Type 0 where
  pub introspection : Option Bool
  pub username : Text

pub data TokenError : Type 0 where
  no_token no_result no_identity : TokenError
  rejected : GoError → TokenError

abbrev pub of_verified : Option VerifiedToken → Result TokenError AuthenticatedToken
of_verified none = err no_result
of_verified (some result) =
    if is_nil result.username
    then err no_identity
    else ok (record { introspection = some result.active; username = result.username })

abbrev pub of_verification :
    Result GoError (Option VerifiedToken) → Result TokenError AuthenticatedToken
of_verification (err e) = err (rejected e)
of_verification (ok result) = of_verified result

-- `Keycloak.AuthenticateToken`, where a verifier is configured.
unfoldable pub authenticate_token :
    (Text → Result GoError (Option VerifiedToken)) → Text → Result TokenError AuthenticatedToken
authenticate_token verify access_token =
    if is_nil access_token then err no_token else of_verification (verify access_token)

-- What the middleware hands on in the context of the request.
pub record Identity : Type 0 where
  pub scheme : Scheme
  pub introspection : Option Bool
  pub username : Text
  pub basic_password : Text

-- The answer without the handler: a status and a message.
pub record Refusal : Type 0 where
  pub status : ℕ
  pub message : Text

abbrev pub refuse : ℕ → Text → Refusal
refuse status message = record { status = status; message = message }

-- `RequestAuthenticator`, whose answer may be nil.
abbrev pub Authenticator : Type 0
Authenticator = Text → Result TokenError (Option AuthenticatedToken)

abbrev pub bearer_identity : Credentials → Option AuthenticatedToken → Result Refusal Identity
bearer_identity c none = err (
    refuse unauthorized
      (codes "authentication failed: bearer token is missing authoritative user identity"))
bearer_identity c (some token) =
    if is_nil (trim_space token.username)
    then err (
        refuse unauthorized
          (codes "authentication failed: bearer token is missing authoritative user identity"))
    else ok (record {
      scheme = bearer;
      introspection = token.introspection;
      username = trim_space token.username;
      basic_password = c.basic_password;
    })

abbrev pub of_authentication :
    Credentials → Result TokenError (Option AuthenticatedToken) → Result Refusal Identity
of_authentication c (err e) = err (refuse unauthorized (codes "authentication failed"))
of_authentication c (ok token) = bearer_identity c token

abbrev pub authenticate_bearer : Option Authenticator → Credentials → Result Refusal Identity
authenticate_bearer none c =
    err (refuse internal_server_error (codes "authentication is not configured"))
authenticate_bearer (some authenticate) c = of_authentication c (authenticate c.token)

abbrev pub of_scheme : Option Authenticator → Scheme → Credentials → Result Refusal Identity
of_scheme authenticator bearer c = authenticate_bearer authenticator c
of_scheme authenticator basic c = ok (record {
  scheme = basic;
  introspection = none;
  username = c.username;
  basic_password = c.basic_password;
})

abbrev pub of_credentials :
    Option Authenticator → Result HeaderError Credentials → Result Refusal Identity
of_credentials authenticator (err e) =
    err (refuse unauthorized (codes "invalid authorization header"))
of_credentials authenticator (ok c) = of_scheme authenticator c.scheme c

-- `NewRouteAuthMiddleware`: what a handler behind it gets of a header, or the answer instead of it.
unfoldable pub route_auth_middleware :
    (Text → Option Text) → Option Authenticator → Text → Result Refusal Identity
route_auth_middleware decode authenticator header =
    of_credentials authenticator (authorization_token_from_request decode header)

-- The request of an account: `irodsauth.Request`.
pub record AccountRequest : Type 0 where
  pub auth_scheme : Scheme
  pub username : Text
  pub basic_password : Text

abbrev pub password_of : Identity → Text
password_of identity = elim identity.scheme [ bearer ↦ [] | basic ↦ identity.basic_password ]

abbrev pub is_bearer : Scheme → Bool
is_bearer bearer = true
is_bearer basic = false

-- `NewDrsServiceContext` of an identity, up to the library's account: nothing for a bearer without a name.
unfoldable pub account_request : Identity → Option AccountRequest
account_request identity =
    if is_bearer identity.scheme && is_nil (trim_space identity.username)
    then none
    else some (record {
      auth_scheme = identity.scheme;
      username = trim_space identity.username;
      basic_password = password_of identity;
    })

module _ {Account : Type 0} (create_account : AccountRequest → Result GoError Account) where
  abbrev pub of_account : Result GoError Account → Result Refusal Account
  of_account (err e) = err (refuse unauthorized (codes "request authentication failed"))
  of_account (ok account) = ok account

  abbrev pub of_request : Option AccountRequest → Result Refusal Account
  of_request none = err (refuse unauthorized (codes "request authentication failed"))
  of_request (some request) = of_account (create_account request)

-- What passes a middleware that is not nil.
abbrev pub passed : {A : Type 0} → Result Refusal A → Result Refusal (Option A)
passed (err refusal) = err refusal
passed (ok a) = ok (some a)

-- The identity behind the authentication, which `NewRouter` leaves out where its middleware is nil.
abbrev pub identity_of :
    (Text → Option Text) → Option (Option Authenticator) → Text → Result Refusal (Option Identity)
identity_of decode none header = ok none
identity_of decode (some authenticator) header =
    passed (route_auth_middleware decode authenticator header)

-- The account behind the service context, which is left out as well where it is nil: then the handler is
-- reached without an account. A request without an identity is refused.
abbrev pub behind_service :
    {Account : Type 0}
    → Option (AccountRequest → Result GoError Account)
    → Result Refusal (Option Identity)
    → Result Refusal (Option Account)
behind_service service (err refusal) = err refusal
behind_service none (ok identity) = ok none
behind_service (some create_account) (ok none) =
    err (refuse unauthorized (codes "request authentication failed"))
behind_service (some create_account) (ok (some identity)) =
    passed (of_request create_account (account_request identity))

-- A route that needs authentication (`NewRouter`): what its handler is reached with. A middleware is
-- nil where its configuration could not be read.
unfoldable pub authenticated_route :
    {Account : Type 0}
    → Option (AccountRequest → Result GoError Account)
    → (Text → Option Text)
    → Option (Option Authenticator)
    → Text
    → Result Refusal (Option Account)
authenticated_route service decode authentication header =
    behind_service service (identity_of decode authentication header)
