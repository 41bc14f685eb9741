-- ===== src/Provider/AuthorizeEndpoint.antt =====
-- AuthorizeHandler and AuthorizeResponse of oidc/provider/handlers.go. The browser state and the
-- session state are left out: their errors are only logged.
pub mod Keys
pub mod Response
pub mod Handler
use lico.Base.{
  ℕ, String, Bool, true, false, Option, none, some, List, [], ◌∷◌, ◌==◌, ◌||◌, ◌&&◌, not,
  if◌then◌else◌,
}
use lico.Base.Text.{join}
use lico.Base.Dict.{Dict, get, flag, has}
use lico.Errors.{
  GoError, error_text, oauth2_error, authentication_error, authentication_bad_request,
  redirect_error, login_required_error, is_handled_error, failure, Result, ok, err, panic, ◌>>=◌,
  ◌>>◌, guard, value_of,
}
use lico.Url.{Url, UrlLib}
use lico.Jwt.{
  HeaderValue, missing, not_text, text, Token, Key, public_key, allow_none, SigningMethod,
  is_unsigned,
}
use lico.Oidc.{Oidc}
use lico.Clients.{ClientRegistration, ClientLib, Secured, secure, apply_implicit_scopes}
use lico.Clients.Registry.{Registry}
use lico.Clients.Lookup.{ParseClientId, get_client}
use lico.Code.{CodeManager, create}
use lico.Payload.Claims.{ClaimsRequest, ClaimsRequestMap, match}
use lico.Payload.Authentication.{
  AuthenticationRequest, RequestObjectClaims, RequestLib, Session, new_authentication_request,
  new_error, set_secure,
}
use lico.Payload.Validation.{validate_request}
use lico.Identity.{AuthRecord, make_array_from_bool_map}
use lico.Provider.Keys.{ProviderKeys, validate_jwt}
use lico.Provider.Session.{SessionLib, CookieValue, get_session, update_or_create_session}
use lico.Provider.Managers.{IdentityManagers, TokenMaker}
use lico.Provider.Grants.{CodeRecord}

-- registration, _ := p.clients.Get(…)
abbrev pub known_client : Result (Option ClientRegistration) → Result (Option ClientRegistration)
known_client (ok found) = ok found
known_client (err e) = ok none
known_client panic = panic

-- The key id as Secure reads it.
abbrev pub kid_of : HeaderValue → Option String
kid_of missing = none
kid_of not_text = none
kid_of (text s) = some s

-- The key of a registered client, which the claims keep.
unfoldable pub secured_object_key :
    ClientLib → ClientRegistration → Token RequestObjectClaims → Result (Key × RequestObjectClaims)
secured_object_key clib registration token = do
  client ← secure clib registration (kid_of token.kid)
  claims ← set_secure client token.claims
  ok (public_key client.key, claims)

-- The signed request object of a registered client.
unfoldable pub signed_object_key :
    ClientLib → ClientRegistration → Token RequestObjectClaims → Result (Key × RequestObjectClaims)
signed_object_key clib registration token = elim registration.jwks [
  | none ↦ err (failure "no client keys registered")
  | some jwks ↦ secured_object_key clib registration token
]

-- The key function of AuthorizeHandler for request objects, on the client's registration.
unfoldable pub object_key_for :
    ClientLib
    → Option ClientRegistration
    → Token RequestObjectClaims
    → Result (Key × RequestObjectClaims)
object_key_for clib none token =
    if is_unsigned token.method
    then ok (allow_none, token.claims)
    else err (failure "not validated")
object_key_for clib (some registration) token =
    if not (registration.raw_request_object_signing_alg == "")
      && not (token.method.alg == registration.raw_request_object_signing_alg)
    then err (failure "token alg does not match client registration")
    else if is_unsigned token.method
    then ok (allow_none, token.claims)
    else signed_object_key clib registration token

-- What the handler uses of the provider and of other packages; `V` is what the schema decoder reads.
pub record Authorizer (V : Type 0) : Type 0 where
  pub request_lib : RequestLib V
  pub urls : UrlLib
  pub client_lib : ClientLib
  pub parse_client_id : ParseClientId
  pub registry : Registry
  pub managers : IdentityManagers
  pub maker : TokenMaker
  pub keys : ProviderKeys
  pub get_signing_method : String → Option SigningMethod
  pub session_lib : SessionLib
  pub access_token_duration : ℕ

-- What the handler reads of the surroundings: the request's cookie, the random session id and code,
-- and the time.
pub record Surroundings : Type 0 where
  pub cookie : CookieValue
  pub session_id : String
  pub code : String
  pub now : ℕ

-- AuthenticationSuccess, less the session state; "" is a field that is left out
pub record AuthenticationSuccess : Type 0 where
  pub code : String
  pub access_token : String
  pub token_type : String
  pub expires_in : ℕ
  pub id_token : String
  pub state : String
  pub scope : String

-- What the handler writes; the redirects take the URI and whether the answer is in its fragment.
pub data AuthorizeReply : Type 0 where
  found_success : Option Url → AuthenticationSuccess → Bool → AuthorizeReply
  found_error : Option Url → GoError → Bool → AuthorizeReply
  found_uri : Url → AuthorizeReply
  login_page : Url → AuthorizeReply
  bad_page : String → String → AuthorizeReply
  error_page : String → AuthorizeReply
  nothing : AuthorizeReply
  crashed : AuthorizeReply

-- The codes, the value of the session cookie if it is set, and the reply.
abbrev pub Answer : Type 0
Answer = CodeManager CodeRecord × Option String × AuthorizeReply

-- The switch on err's type in AuthorizeResponse.
unfoldable pub authorize_error : AuthenticationRequest → GoError → AuthorizeReply
authorize_error ar (authentication_error id description state) =
    found_error ar.redirect_uri (authentication_error id description state) ar.use_fragment
authorize_error ar (authentication_bad_request id description state) = bad_page id description
authorize_error ar (redirect_error id uri) = found_uri uri
authorize_error ar (login_required_error id uri) = login_page uri
authorize_error ar is_handled_error = nothing
authorize_error ar (oauth2_error id description) =
    found_error ar.redirect_uri (new_error ar id description) ar.use_fragment
authorize_error ar (failure e) = error_page e

module _ (o : Oidc) {V : Type 0} (e : Authorizer V) where
  -- The key function that the handler hands to the decoder.
  unfoldable pub request_object_key : Token RequestObjectClaims → Result (Key × RequestObjectClaims)
  request_object_key token = do
    registration ← known_client (get_client e.parse_client_id e.registry token.claims.client_id)
    object_key_for e.client_lib registration token

  -- The implicit scopes of a registered client.
  unfoldable pub inject_scopes :
      Option ClientRegistration → AuthenticationRequest → AuthenticationRequest
  inject_scopes none ar = ar
  inject_scopes (some registration) ar = record ar {
    scopes = apply_implicit_scopes registration ar.scopes;
  }

  abbrev session_or_none : Option (Option Session) → Option Session
  session_or_none none = none
  session_or_none (some session) = session

  -- The request with its implicit scopes and the session of the cookie.
  unfoldable pub prepare_request :
      Surroundings → AuthenticationRequest → Result AuthenticationRequest
  prepare_request s ar = do
    registration ← known_client (get_client e.parse_client_id e.registry ar.client_id)
    ok (record (inject_scopes registration ar) {
      session = session_or_none (value_of (get_session e.session_lib s.cookie));
    })

  -- The sub claim that the request asks for; a nil entry is the use of a nil pointer.
  unfoldable pub check_sub :
      Option ClaimsRequest → AuthenticationRequest → AuthRecord → Result (Unit {0})
  check_sub none ar auth = ok tt
  check_sub (some claims) ar auth = elim claims.id_token [
    | none ↦ ok tt
    | some m ↦ elim (get o.subject_identifier_claim m) [
      | none ↦ ok tt
      | some none ↦ panic
      | some (some value) ↦
          guard (match value auth.sub) (new_error ar o.access_denied "sub claim request mismatch")
    ]
  ]

  -- The handler from Authenticate to Authorize.
  unfoldable pub authorize_user : AuthenticationRequest → Result AuthRecord
  authorize_user ar = do
    auth ← e.managers.authenticate ar
    check_sub ar.claims ar auth
    e.managers.authorize auth.manager ar auth

  -- The fields of the successful response.
  unfoldable pub success_of :
      AuthenticationRequest → AuthRecord → String → String → String → AuthenticationSuccess
  success_of ar auth code access id_token = record {
    code = code;
    access_token = access;
    token_type = if access == "" then "" else o.token_type_bearer;
    expires_in = if access == "" then 0 else e.access_token_duration;
    id_token = id_token;
    state = ar.state;
    scope = join (make_array_from_bool_map auth.authorized_scopes);
  }

  -- The tokens that the response type asks for.
  unfoldable pub access_token_of : AuthenticationRequest → AuthRecord → Result String
  access_token_of ar auth =
      if has o.response_type_token ar.response_types
      then e.maker.make_access_token ar.client_id auth none
      else ok ""

  unfoldable pub id_token_for :
      AuthenticationRequest → AuthRecord → Session → String → String → Result String
  id_token_for ar auth session access code =
      if flag o.scope_openid auth.authorized_scopes
        && has o.response_type_id_token ar.response_types
      then e.maker.make_id_token ar auth (some session) access code none
      else ok ""

  unfoldable pub make_success :
      AuthenticationRequest → AuthRecord → Session → String → Result AuthenticationSuccess
  make_success ar auth session code = do
    access ← access_token_of ar auth
    id_token ← id_token_for ar auth session access code
    ok (success_of ar auth code access id_token)

  abbrev pub reply_of : AuthenticationRequest → Result AuthenticationSuccess → AuthorizeReply
  reply_of ar (ok success) = found_success ar.redirect_uri success ar.use_fragment
  reply_of ar (err error) = authorize_error ar error
  reply_of ar panic = crashed

  -- AuthorizeResponse with a session: the code is kept even if a token fails.
  unfoldable pub respond_with :
      Surroundings
      → CodeManager CodeRecord
      → AuthenticationRequest
      → AuthRecord
      → Session
      → Option String
      → Answer
  respond_with s cm ar auth session cookie =
      if has o.response_type_code ar.response_types
      then (
        create s.code s.now (record { request = ar; auth = auth; session = some session }) cm,
        cookie,
        reply_of ar (make_success ar auth session s.code),
      )
      else (cm, cookie, reply_of ar (make_success ar auth session ""))

  -- AuthorizeResponse from the session on.
  unfoldable pub session_response :
      Surroundings
      → CodeManager CodeRecord
      → AuthenticationRequest
      → AuthRecord
      → Result (Session × Option String)
      → Answer
  session_response s cm ar auth (ok (session, cookie)) = respond_with s cm ar auth session cookie
  session_response s cm ar auth (err error) = (cm, none, authorize_error ar error)
  session_response s cm ar auth panic = (cm, none, crashed)

  -- AuthorizeResponse, on the result of the handler so far
  unfoldable pub authorize_response :
      Surroundings → CodeManager CodeRecord → AuthenticationRequest → Result AuthRecord → Answer
  authorize_response s cm ar (err error) = (cm, none, authorize_error ar error)
  authorize_response s cm ar panic = (cm, none, crashed)
  authorize_response s cm ar (ok auth) =
      session_response s cm ar auth
        (update_or_create_session e.session_lib s.session_id e.managers.name ar.session auth)

  -- The handler from Authenticate on, for a request that is prepared.
  unfoldable pub answer_prepared :
      Surroundings → CodeManager CodeRecord → Result AuthenticationRequest → Answer
  answer_prepared s cm (ok ar) = authorize_response s cm ar (authorize_user ar)
  answer_prepared s cm (err error) = (cm, none, error_page (error_text error))
  answer_prepared s cm panic = (cm, none, crashed)

  -- The handler from the result of Validate on; the second request is the one that was decoded.
  unfoldable pub answer_validated :
      Surroundings
      → CodeManager CodeRecord
      → AuthenticationRequest
      → Result AuthenticationRequest
      → Answer
  answer_validated s cm decoded (ok valid) = answer_prepared s cm (prepare_request s valid)
  answer_validated s cm decoded (err error) = authorize_response s cm decoded (err error)
  answer_validated s cm decoded panic = (cm, none, crashed)

  -- The handler from the decoded request on.
  unfoldable pub answer_decoded :
      Surroundings → CodeManager CodeRecord → Result AuthenticationRequest → Answer
  answer_decoded s cm (ok decoded) =
      answer_validated s cm decoded
        (validate_request o e.request_lib (some (validate_jwt e.keys e.get_signing_method)) decoded)
  answer_decoded s cm (err error) = (cm, none, bad_page o.invalid_request (error_text error))
  answer_decoded s cm panic = (cm, none, crashed)

  -- AuthorizeHandler, on what ParseForm reads
  unfoldable pub authorize_handler : Surroundings → CodeManager CodeRecord → Result V → Answer
  authorize_handler s cm form = answer_decoded s cm (
      form >>= λ values.
      new_authentication_request o e.urls e.request_lib values (some request_object_key))
