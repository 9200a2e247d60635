-- ===== src/Http/Authorization.antt =====
-- The `Authorization` header (internal/auth_middleware.go). `base64.StdEncoding.DecodeString` is an
-- argument.
use irods_go_drs.Base.{ℕ, Option, none, some, [], ◌∷◌, is_nil, eqb, if◌then◌else◌}
use irods_go_drs.Base.Exec.{Result, ok, err}
use irods_go_drs.Text.{Text, codes, equal_fold, trim_space}

pub data Scheme : Type 0 where
  bearer basic : Scheme

pub record Credentials : Type 0 where
  pub scheme : Scheme
  pub token : Text
  pub username : Text
  pub basic_password : Text

-- `strings.Cut` at the first separator of one character: what stands before it and behind it.
unfoldable pub cut_at : ℕ → Text → Option (Text × Text)
cut_at sep [] = none
cut_at sep (c ∷ s) =
    let rest = cut_at sep s in
    if eqb c sep then some ([], s) else elim rest [ none ↦ none | some r ↦ some (c ∷ r.0, r.1) ]

pub data HeaderError : Type 0 where
  missing_header malformed_header invalid_basic_value : HeaderError

abbrev pub basic_credentials : Text → Text → Text → Credentials
basic_credentials token username password = record {
  scheme = basic;
  token = token;
  username = username;
  basic_password = password;
}

-- What a colon separates: a password that is not blank, or a user name that stands for a token.
abbrev pub of_user_and_password : Text → Text → Text → Credentials
of_user_and_password credentials username password =
    if is_nil password
    then (if is_nil username
        then basic_credentials credentials [] []
        else basic_credentials username [] [])
    else basic_credentials password username password

abbrev pub of_cut : Text → Option (Text × Text) → Credentials
of_cut credentials none = basic_credentials credentials [] []
of_cut credentials (some (username, password)) =
    of_user_and_password credentials (trim_space username) (trim_space password)

module _ (decode : Text → Option Text) where
  abbrev pub of_decoded : Option Text → Result HeaderError Credentials
  of_decoded none = err invalid_basic_value
  of_decoded (some decoded) =
      let credentials = trim_space decoded in
      if is_nil credentials
      then err invalid_basic_value
      else ok (of_cut credentials (cut_at b':' credentials))

  -- `tokenUsernameAndPasswordFromBasicAuthValue`
  unfoldable pub token_username_and_password_from_basic_auth_value :
      Text → Result HeaderError Credentials
  token_username_and_password_from_basic_auth_value value = of_decoded (decode value)

  abbrev pub of_header_parts : Option (Text × Text) → Result HeaderError Credentials
  of_header_parts none = err malformed_header
  of_header_parts (some (auth_type, auth_value)) =
      let value = trim_space auth_value in
      if is_nil value
      then err malformed_header
      else if equal_fold auth_type (codes "Bearer")
      then ok (record { scheme = bearer; token = value; username = []; basic_password = [] })
      else if equal_fold auth_type (codes "Basic")
      then token_username_and_password_from_basic_auth_value value
      else err malformed_header

  -- `authorizationTokenFromRequest`, of the header's value.
  unfoldable pub authorization_token_from_request : Text → Result HeaderError Credentials
  authorization_token_from_request header =
      let trimmed = trim_space header in
      if is_nil trimmed then err missing_header else of_header_parts (cut_at b' ' trimmed)
