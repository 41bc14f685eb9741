-- ===== src/Provider/TokenEndpoint.antt =====
-- TokenHandler of oidc/provider/handlers.go. It starts with the method and the form of the request;
-- the headers that it sets first are left out.
pub mod Replay
pub mod Issue
pub mod Tokens
use lico.Base.{
  ℕ, String, Bool, true, false, Option, none, some, List, [], ◌∷◌, ◌==◌, ◌||◌, ◌&&◌, not,
  if◌then◌else◌,
}
use lico.Base.Dict.{Dict, get, flag, set_of, put}
use lico.Errors.{GoError, error_text, oauth2_error, Result, ok, err, panic, ◌>>=◌, ◌>>◌, guard}
use lico.Url.{Url, UrlLib}
use lico.Jwt.{SigningMethod, Token, Key}
use lico.Oidc.{Oidc}
use lico.Clients.{ClientRegistration, ClientLib, Details}
use lico.Clients.Registry.{Registry}
use lico.Clients.Lookup.{ParseClientId, lookup}
use lico.Provider.Keys.{ProviderKeys, validate_jwt}
use lico.Code.{CodeManager, pop}
use lico.Payload.Authentication.{AuthenticationRequest, Session}
use lico.Payload.Token.{
  TokenLib, TokenRequest, RefreshTokenClaims, decode_token_request, validate_token_request,
}
use lico.Identity.{AuthRecord, auth_authorize_scopes, authorize_claims}
use lico.Provider.Managers.{IdentityManagers, TokenMaker, manager_from_claims, user_from_claims}
use lico.Provider.Grants.{
  CodeRecord, Grant, Outcome, granted, failed, lost, panicked, outcome_of, exchange_code, refresh,
  ChallengeCheck,
}

-- TokenSuccess, the fields that the handler sets; "" is a field that is left out
pub record TokenSuccess : Type 0 where
  pub access_token : String
  pub token_type : String
  pub expires_in : ℕ
  pub id_token : String
  pub refresh_token : String

-- What the handler writes.
pub data Response : Type 0 where
  success : TokenSuccess → Response
  bad_request : String → String → Response
  error_page : String → Response
  crashed : Response

abbrev pub no_tokens : TokenSuccess
no_tokens = record {
  access_token = "";
  token_type = "";
  expires_in = 0;
  id_token = "";
  refresh_token = "";
}

-- The switch on err's type at `done`.
unfoldable pub error_response : GoError → Response
error_response (oauth2_error id description) = bad_request id description
error_response e = error_page (error_text e)

-- What the handler uses of the provider and of other packages.
pub record Endpoint (V : Type 0) : Type 0 where
  pub token_lib : TokenLib V
  pub urls : UrlLib
  pub client_lib : ClientLib
  pub parse_client_id : ParseClientId
  pub registry : Registry
  pub managers : IdentityManagers
  pub maker : TokenMaker
  pub keys : ProviderKeys
  pub get_signing_method : String → Option SigningMethod
  pub challenge_error : ChallengeCheck
  pub access_token_duration : ℕ

-- The error of an earlier step as an OAuth2 error.
abbrev pub as_oauth2 {ℓ} : {A : Type ℓ} → String → Result A → Result A
as_oauth2 id (ok a) = ok a
as_oauth2 id (err e) = err (oauth2_error id (error_text e))
as_oauth2 id panic = panic

-- The new table of codes beside what the handler writes.
abbrev pub Answer : Type 0
Answer = CodeManager CodeRecord × Response

module _ (o : Oidc) {V : Type 0} (e : Endpoint V) where
  -- p.clients.Lookup as the handler calls it.
  abbrev pub client_of : TokenRequest → Result Details
  client_of tr =
      lookup o e.urls e.client_lib e.parse_client_id e.registry tr.client_id tr.client_secret
        tr.redirect_uri "" false

  -- The handler up to the switch on the grant type; `form` is what ParseForm reads.
  unfoldable pub read_token_request : String → Result V → String → Result (TokenRequest × Details)
  read_token_request method form header = do
    guard (method == "POST") (oauth2_error o.invalid_request "request must be sent with POST")
    values ← as_oauth2 o.invalid_request form
    decoded ← as_oauth2 o.invalid_request (decode_token_request e.token_lib e.urls values header)
    tr ←
        validate_token_request e.token_lib o (some (validate_jwt e.keys e.get_signing_method))
          decoded
    details ← as_oauth2 o.access_denied (client_of tr)
    ok (tr, details)

  -- signinMethod: that of the client's registration, or the provider's default.
  unfoldable pub signin_method : Details → Option SigningMethod
  signin_method details = elim details.registration [
    | none ↦ e.keys.signing_method_default
    | some registration ↦ e.get_signing_method registration.raw_id_token_signed_response_alg
  ]

  -- The switch on the grant type.
  unfoldable pub take_grant :
      CodeManager CodeRecord → TokenRequest → CodeManager CodeRecord × Outcome
  take_grant cm tr =
      let (record_found, rest) = pop tr.code cm in
      if tr.grant_type == o.grant_type_authorization_code
      then (rest, outcome_of (exchange_code o e.challenge_error tr record_found))
      else if tr.grant_type == o.grant_type_refresh_token
      then (cm, refresh o e.managers tr)
      else (cm, failed (oauth2_error o.unsupported_grant_type "grant_type value not implemented"))

  -- The ID token of a code that did not come with one.
  unfoldable pub id_token_of : Grant → String → Option SigningMethod → Result String
  id_token_of g access_token method =
      if flag o.response_type_id_token g.request.response_types
      then ok ""
      else e.maker.make_id_token g.request g.auth g.session access_token "" method

  unfoldable pub refresh_token_of : Grant → Result String
  refresh_token_of g =
      if flag o.scope_offline_access g.authorized_scopes
      then e.maker.make_refresh_token g.request.client_id g.auth none
      else ok ""

  -- The fields of the response; those of an empty access token are left out.
  unfoldable pub token_success : String → String → String → TokenSuccess
  token_success access id_token refresh_token =
      if access == ""
      then record no_tokens { id_token = id_token; refresh_token = refresh_token }
      else record {
        access_token = access;
        token_type = o.token_type_bearer;
        expires_in = e.access_token_duration;
        id_token = id_token;
        refresh_token = refresh_token;
      }

  -- The tokens for a grant.
  unfoldable pub make_tokens : TokenRequest → Option SigningMethod → Grant → Result TokenSuccess
  make_tokens tr method g = do
    access ← e.maker.make_access_token g.request.client_id g.auth method
    if tr.grant_type == o.grant_type_authorization_code
        then (id_token_of g access method >>= λ id_token. refresh_token_of g >>= λ refresh_token.
            ok (token_success access id_token refresh_token))
        else ok (token_success access "" "")

  abbrev pub response_of : Result TokenSuccess → Response
  response_of (ok tokens) = success tokens
  response_of (err error) = error_response error
  response_of panic = crashed

  -- From the outcome of the switch to the response.
  unfoldable pub respond : TokenRequest → Details → Outcome → Response
  respond tr details (granted g) = response_of (make_tokens tr (signin_method details) g)
  respond tr details (failed error) = error_response error
  respond tr details (lost error) = success no_tokens
  respond tr details panicked = crashed

  -- The handler for a request that was read.
  abbrev pub answer_request : CodeManager CodeRecord → Result (TokenRequest × Details) → Answer
  answer_request cm (ok (tr, details)) =
      ((take_grant cm tr).0, respond tr details (take_grant cm tr).1)
  answer_request cm (err error) = (cm, error_response error)
  answer_request cm panic = (cm, crashed)

  -- TokenHandler
  unfoldable pub token_handler : CodeManager CodeRecord → String → Result V → String → Answer
  token_handler cm method form header = answer_request cm (read_token_request method form header)
