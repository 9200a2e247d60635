-- ===== src/Http/Authenticate/Trusted.antt =====
-- Whose account a request gets.
use irods_go_drs.Base.{
  ◌≡◌, ◌≢◌, refl, false, Bool-cases, arith, Option, none, some, is_nil, [], inl, inr,
}
use irods_go_drs.Base.Exec.{Result, ok, err}
use irods_go_drs.Text.{Text, trim_space, trim_space_idem}
use irods_go_drs.Http.Status.{GoError}
use irods_go_drs.Http.Authorization.{
  Scheme, bearer, basic, Credentials, HeaderError, authorization_token_from_request,
}
use irods_go_drs.Http.Authenticate.{
  AuthenticatedToken, TokenError, Identity, Refusal, Authenticator, of_authentication, of_scheme,
  of_credentials, route_auth_middleware, AccountRequest, account_request, of_account, of_request,
  passed, identity_of, behind_service, authenticated_route,
}

module _ (decode : Text → Option Text) (authenticator : Option Authenticator) (header : Text) where
  -- The authenticator accepts the token as that of the user.
  abbrev pub IsTokenOf : Text → Text → Type 0
  IsTokenOf token user =
      (authenticate : Authenticator) × (accepted : AuthenticatedToken) × (authenticator
        ≡ some authenticate)
      × (authenticate token ≡ ok (some accepted))
      × (user ≡ trim_space accepted.username)
      × (is_nil user ≡ false)

  -- A bearer's account is that of the user of an accepted token, without a password; a basic one is
  -- that of the user and the password of the header.
  abbrev pub IsTrusted : Credentials → Scheme → Text → Text → Type 0
  IsTrusted c bearer user password = IsTokenOf c.token user × (password ≡ [])
  IsTrusted c basic user password = (user ≡ trim_space c.username) × (password ≡ c.basic_password)

  abbrev pub IsFrom : AccountRequest → Type 0
  IsFrom request =
      (c : Credentials) × (authorization_token_from_request decode header ≡ ok c)
      × (request.auth_scheme ≡ c.scheme)
      × IsTrusted c c.scheme request.username request.basic_password

  abbrev IsIdentityOf : Credentials → Scheme → Identity → Type 0
  IsIdentityOf c bearer i = (i.scheme ≡ bearer) × IsTokenOf c.token i.username
  IsIdentityOf c basic i =
      (i.scheme ≡ basic) × (i.username ≡ c.username) × (i.basic_password ≡ c.basic_password)

  bearer_identity_lem :
      (authenticate : Authenticator) (c : Credentials) (i : Identity)
      (r : Result TokenError (Option AuthenticatedToken))
      → authenticator ≡ some authenticate
      → authenticate c.token ≡ r
      → of_authentication c r ≡ ok i
      → IsIdentityOf c bearer i
  bearer_identity_lem authenticate c i (err e) a t h = absurd (ground arith)
  bearer_identity_lem authenticate c i (ok none) a t h = absurd (ground arith)
  bearer_identity_lem authenticate c i (ok (some token)) a t h =
      elim (Bool-cases (is_nil (trim_space token.username))) [
        | inl n ↦ absurd (ground arith)
        | inr n ↦ (ground arith, (authenticate, token, a, t, ground arith, ground (arith, h, n)))
      ]

  of_scheme_lem :
      (given : Option Authenticator) (c : Credentials) (scheme : Scheme) (i : Identity)
      → authenticator ≡ given
      → of_scheme given scheme c ≡ ok i
      → IsIdentityOf c scheme i
  of_scheme_lem none c bearer i g h = absurd (ground arith)
  of_scheme_lem (some authenticate) c bearer i g h =
      bearer_identity_lem authenticate c i (authenticate c.token) g refl h
  of_scheme_lem given c basic i g h = (ground arith, ground arith, ground arith)

  request_lem :
      (c : Credentials) (scheme : Scheme) (i : Identity) (request : AccountRequest)
      → IsIdentityOf c scheme i
      → account_request i ≡ some request
      → (request.auth_scheme ≡ scheme) × IsTrusted c scheme request.username request.basic_password
  unfolding account_request
  request_lem c bearer i request (b, (authenticate, token, a, t, u, n)) h = (
    ground (arith, b),
    (
      (
        authenticate,
        token,
        a,
        t,
        ground (arith, b, u, trim_space_idem token.username),
        ground (arith, b, u, n, trim_space_idem token.username),
      ),
      ground (arith, b),
    ),
  )
  request_lem c basic i request (b, u, p) h =
      (ground (arith, b), (ground (arith, b, u), ground (arith, b, p)))

  module _ {Account : Type 0} (create_account : AccountRequest → Result GoError Account) where
    of_request_lem :
        (c : Credentials) (i : Identity) (account : Account) (r : Option AccountRequest)
        → authorization_token_from_request decode header ≡ ok c
        → IsIdentityOf c c.scheme i
        → account_request i ≡ r
        → of_request create_account r ≡ ok account
        → (request : AccountRequest) × (create_account request ≡ ok account) × IsFrom request
    of_request_lem c i account none p k r h = absurd (ground arith)
    of_request_lem c i account (some request) p k r h =
        let q = request_lem c c.scheme i request k r in
        (request, created (create_account request) refl h, (c, p, q.0, q.1))
      where
        created :
            (made : Result GoError Account)
            → create_account request ≡ made
            → of_account create_account made ≡ ok account
            → create_account request ≡ ok account
        created (err e) m o = absurd (ground arith)
        created (ok a) m o = ground arith

    behind_service_lem :
        (identity : Result Refusal Identity) (c : Credentials) (account : Account)
        → authorization_token_from_request decode header ≡ ok c
        → of_scheme authenticator c.scheme c ≡ identity
        → behind_service (some create_account) (passed identity) ≡ ok (some account)
        → (request : AccountRequest) × (create_account request ≡ ok account) × IsFrom request
    behind_service_lem (err e) c account p o h = absurd (ground arith)
    behind_service_lem (ok i) c account p o h =
        of_request_lem c i account (account_request i) p
          (of_scheme_lem authenticator c c.scheme i refl o) refl
          (passed-eq_some (of_request create_account (account_request i)) h)
      where
        passed-eq_some :
            (r : Result Refusal Account) → passed r ≡ ok (some account) → r ≡ ok account
        passed-eq_some (err e) k = absurd (ground arith)
        passed-eq_some (ok a) k = ground arith

    of_credentials_lem :
        (account : Account) (r : Result HeaderError Credentials)
        → authorization_token_from_request decode header ≡ r
        → behind_service (some create_account) (passed (of_credentials authenticator r))
          ≡ ok (some account)
        → (request : AccountRequest) × (create_account request ≡ ok account) × IsFrom request
    of_credentials_lem account (err e) p h = absurd (ground arith)
    of_credentials_lem account (ok c) p h =
        behind_service_lem (of_scheme authenticator c.scheme c) c account p refl h

module _ {Account : Type 0} (service : Option (AccountRequest → Result GoError Account))
    (decode : Text → Option Text) (authentication : Option (Option Authenticator))
    (header : Text) where
  -- What a handler is reached with: no account only where the service context is left out, and an account
  -- only where both middlewares are there and the account was made for the header of the request.
  abbrev pub IsHanded : Option Account → Type 0
  IsHanded none = service ≡ none
  IsHanded (some account) =
      (create_account : AccountRequest → Result GoError Account) × (authenticator : Option
        Authenticator)
      × (request : AccountRequest) × (service ≡ some create_account)
      × (authentication ≡ some authenticator)
      × (create_account request ≡ ok account)
      × IsFrom decode authenticator header request

  passed-ne_none : (r : Result Refusal Account) → passed r ≢ ok none
  passed-ne_none (err e) h = ground arith
  passed-ne_none (ok a) h = ground arith

  service_refuses :
      (create_account : AccountRequest → Result GoError Account)
      (identity : Result Refusal (Option Identity))
      → behind_service (some create_account) identity ≢ ok none
  service_refuses create_account (err e) h = ground arith
  service_refuses create_account (ok none) h = ground arith
  service_refuses create_account (ok (some i)) h = passed-ne_none _ h

  no_account :
      (identity : Result Refusal (Option Identity)) (account : Account)
      → behind_service none identity ≢ ok (some account)
  no_account (err e) account h = ground arith
  no_account (ok i) account h = ground arith

  route_of :
      (given : Option (AccountRequest → Result GoError Account))
      (middleware : Option (Option Authenticator)) (reached : Option Account)
      → service ≡ given
      → authentication ≡ middleware
      → behind_service given (identity_of decode middleware header) ≡ ok reached
      → IsHanded reached
  unfolding route_auth_middleware
  route_of none middleware none s a h = s
  route_of (some create_account) middleware none s a h =
      absurd (service_refuses create_account (identity_of decode middleware header) h)
  route_of none middleware (some account) s a h =
      absurd (no_account (identity_of decode middleware header) account h)
  route_of (some create_account) none (some account) s a h = absurd (ground arith)
  route_of (some create_account) (some authenticator) (some account) s a h =
      let r =
        of_credentials_lem decode authenticator header create_account account
          (authorization_token_from_request decode header) refl h in
      (create_account, authenticator, r.0, s, a, r.1, r.2)

  -- The handler of a route that needs authentication is reached with an account only where both
  -- middlewares are there and the account was made for the request's own header: for a bearer token that
  -- the authenticator accepts, without a password and for the user that it names, who is not blank; for
  -- basic credentials, with the user and the password that they hold. It is reached without an account
  -- only where the middleware of the service context is nil.
  pub authenticated_route_lem :
      (reached : Option Account)
      → authenticated_route service decode authentication header ≡ ok reached
      → IsHanded reached
  unfolding authenticated_route
  authenticated_route_lem reached h = route_of service authentication reached refl refl h
