-- ===== src/Provider/UserInfo.antt =====
-- UserInfoHandler of oidc/provider/handlers.go and GetAccessTokenClaimsFromRequest of
-- oidc/provider/provider.go.
pub mod Sound
pub mod Live
pub mod Extra
use lico.Base.{
  ℕ, String, Bool, true, false, Option, none, some, List, [], ◌∷◌, ◌==◌, ◌||◌, if◌then◌else◌,
}
use lico.Base.Text.{cut}
use lico.Base.Dict.{Dict, get, put, flag}
use lico.Errors.{
  GoError, error_text, oauth2_error, failure, Result, ok, err, panic, ◌>>=◌, ◌>>◌, guard,
}
use lico.Jwt.{SigningMethod, Token, Key}
use lico.Oidc.{Oidc}
use lico.Clients.{ClientRegistration}
use lico.Clients.Registry.{Registry}
use lico.Clients.Lookup.{ParseClientId, get_client}
use lico.Payload.Claims.{ClaimsRequestMap, Value, text}
use lico.Identity.{
  AuthRecord, User, EmailClaims, ProfileClaims, ScopeClaims, email_claims, profile_claims,
  map_claims,
}
use lico.Identity.Claims.{claims_of_scope, new_email_claims, new_profile_claims, put_all}
use lico.Provider.Keys.{validate_jwt}
use lico.Provider.Managers.{IdentityManagers, manager_from_claims, user_from_claims}
use lico.TokenClaims.{
  AccessTokenClaims, authorized_scopes_of, internal_extra_access_token_claims_claim,
  scope_numeric_id, scope_unique_user_id,
}
use lico.Provider.Tokens.{TokenProvider, public_subject_from_auth, make_jwt}

-- NumericIDClaims of claims.go
pub record NumericIdClaims : Type 0 where
  pub numeric_id : ℕ
  pub numeric_id_username : String

-- UserInfoResponse of payloads.go with its embedded claims; the unique user id by itself
pub record UserInfoResponse : Type 0 where
  pub subject : String
  pub profile : Option ProfileClaims
  pub email : Option EmailClaims
  pub numeric_id : Option NumericIdClaims
  pub unique_user_id : Option String

-- What the handler uses beside the provider's token making: the parsing of access tokens by golang-jwt,
-- the signing methods by their names, the registry and the encoding of the response as a map.
pub record UserInfoEndpoint : Type 0 where
  pub tokens : TokenProvider
  pub parse_access :
      String → (Token AccessTokenClaims → Result Key) → Result (Token AccessTokenClaims)
  pub get_signing_method : String → Option SigningMethod
  pub parse_client_id : ParseClientId
  pub registry : Registry
  pub response_to_map : UserInfoResponse → Result (Dict Value)

-- The body of a response: JSON, or a signed token.
pub data Body : Type 0 where
  json : Dict Value → Body
  signed : String → Body

-- What the handler writes; nothing for a method that it does not know.
pub data Answer : Type 0 where
  nothing : Answer
  unauthorized : GoError → Answer
  page : ℕ → String → Answer
  body : Body → Answer
  crashed : Answer

-- The NumericIDClaims of a user with a numeric id.
unfoldable pub numeric_id_claims : User → Option NumericIdClaims
numeric_id_claims u = elim u.id [
  | none ↦ none
  | some id ↦
      let username : String = elim u.username [ none ↦ "" | some name ↦ name ] in
      some (record {
        numeric_id = id;
        numeric_id_username = if username == "" then u.subject else username;
      })
]

-- The claims of a scope that is authorized, for a record with a user.
abbrev if_authorized : {A : Type 0} → String → AuthRecord → (User → Option A) → Option A
if_authorized scope auth claims =
    if flag scope auth.authorized_scopes
    then elim auth.user [ none ↦ none | some u ↦ claims u ]
    else none

abbrev pub requested_maps : AccessTokenClaims → List ClaimsRequestMap
requested_maps claims = elim claims.authorized_claims_request [
  | none ↦ []
  | some request ↦ elim request.user_info [ none ↦ [] | some m ↦ m ∷ [] ]
]

-- The extra claims of a record that are a map.
abbrev pub as_map_claims : Option ScopeClaims → Dict Value
as_map_claims (some (map_claims m)) = m
as_map_claims _ = []

unfoldable pub extra_claims_of : AuthRecord → Dict Value
unfolding claims_of_scope
extra_claims_of auth = as_map_claims (claims_of_scope auth internal_extra_access_token_claims_claim)

-- What Fetch found: an error makes it not found.
unfoldable pub found_auth :
    Option AuthRecord × Bool × Option GoError → Result (Option AuthRecord × Bool)
found_auth (auth, found, none) = ok (auth, found)
found_auth (auth, found, some e) = ok (auth, false)

module _ (o : Oidc) (e : UserInfoEndpoint) where
  abbrev pub access_token_key : Token AccessTokenClaims → Result Key
  access_token_key token = validate_jwt e.tokens.keys e.get_signing_method token

  -- The claims of a parsed token, its error wrapped.
  unfoldable pub parsed_claims : Result (Token AccessTokenClaims) → Result AccessTokenClaims
  parsed_claims (ok token) = ok token.claims
  parsed_claims (err error) = err (oauth2_error o.invalid_token (error_text error))
  parsed_claims panic = panic

  -- The token of a Bearer header.
  unfoldable pub claims_of_token : String → Result AccessTokenClaims
  unfolding parsed_claims
  claims_of_token raw = parsed_claims (e.parse_access raw access_token_key)

  -- The two parts of the Authorization header.
  unfoldable pub claims_of_header : String × Option String → Result AccessTokenClaims
  unfolding claims_of_token
  claims_of_header (kind, none) = err (
      oauth2_error o.invalid_request (
        if kind == o.token_type_bearer
        then "Invalid Bearer authorization header format"
        else "Bearer authorization required"))
  claims_of_header (kind, some raw) =
      if kind == o.token_type_bearer
      then claims_of_token raw
      else err (oauth2_error o.invalid_request "Bearer authorization required")

  -- GetAccessTokenClaimsFromRequest, from the Authorization header
  unfoldable pub get_access_token_claims_from_request : String → Result AccessTokenClaims
  unfolding claims_of_header
  get_access_token_claims_from_request header = claims_of_header (cut b' ' header)

  -- The part up to `done`: the record that the manager found, and whether it found one.
  unfoldable pub find_user : AccessTokenClaims → Result (Option AuthRecord × Bool)
  unfolding found_auth authorized_scopes_of
  find_user claims = do
    let user : String × Option String =
        user_from_claims e.tokens.managers claims.audience claims.session claims.identity_claims
    manager ← manager_from_claims e.tokens.managers claims.identity_provider claims.identity_claims
    guard (if user.0 == "" then false else true) (failure "missing data in identity claim")
    found_auth (
        e.tokens.managers.fetch manager user.0 user.1 (some (authorized_scopes_of claims))
          (requested_maps claims) (authorized_scopes_of claims))

  -- The response for a record.
  unfoldable pub user_info_response : AuthRecord → Result UserInfoResponse
  unfolding public_subject_from_auth new_profile_claims new_email_claims numeric_id_claims
  user_info_response auth = do
    subject ← public_subject_from_auth auth
    profile ← new_profile_claims (claims_of_scope auth o.scope_profile)
    email ← new_email_claims (claims_of_scope auth o.scope_email)
    ok (record {
      subject = subject;
      profile = profile;
      email = email;
      numeric_id = if_authorized scope_numeric_id auth numeric_id_claims;
      unique_user_id = if_authorized scope_unique_user_id auth (λ u. u.unique_id);
    })

  -- The body: signed where the client's registration asks for it.
  unfoldable pub sign_response : Option ClientRegistration → Dict Value → Result Body
  unfolding make_jwt
  sign_response none m = ok (json m)
  sign_response (some registration) m =
      let claims : Dict Value =
        put o.audience_claim (text registration.id)
          (put o.issuer_identifier_claim (text e.tokens.issuer_identifier) m) in
      if registration.raw_user_info_signed_response_alg == "" then ok (json m) else do
        token ←
            make_jwt e.tokens (e.get_signing_method registration.raw_user_info_signed_response_alg)
              claims
        ok (signed token)

  -- The part after `done` for a record that was found.
  unfoldable pub respond_user : AccessTokenClaims → AuthRecord → Result Body
  unfolding user_info_response sign_response get_client put_all extra_claims_of
  respond_user claims auth = do
    response ← user_info_response auth
    m ← e.response_to_map response
    registration ← get_client e.parse_client_id e.registry claims.audience
    sign_response registration (put_all (extra_claims_of auth) m)

  abbrev pub answer_of : Result Body → Answer
  answer_of (ok b) = body b
  answer_of (err error) = page 500 (error_text error)
  answer_of panic = crashed

  unfoldable pub answer_found : AccessTokenClaims → Result (Option AuthRecord × Bool) → Answer
  unfolding respond_user
  answer_found claims (err error) = unauthorized (oauth2_error o.invalid_token (error_text error))
  answer_found claims panic = crashed
  answer_found claims (ok (auth, false)) = page 404 "user not found"
  answer_found claims (ok (none, true)) = crashed
  answer_found claims (ok (some auth, true)) = answer_of (respond_user claims auth)

  unfoldable pub answer_claims : Result AccessTokenClaims → Answer
  unfolding find_user answer_found
  answer_claims (err error) = unauthorized error
  answer_claims panic = crashed
  answer_claims (ok claims) = answer_found claims (find_user claims)

  -- UserInfoHandler, from the method and the Authorization header
  unfoldable pub user_info_handler : String → String → Answer
  unfolding answer_claims get_access_token_claims_from_request
  user_info_handler method header =
      if method == "HEAD" || method == "POST" || method == "GET"
      then answer_claims (get_access_token_claims_from_request header)
      else nothing
