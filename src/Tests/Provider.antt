-- ===== src/Tests/Provider.antt =====
-- Runs of the endpoints.
use lico.Base.{◌≡◌, ◌≢◌, refl, true, false, none, some, [], ◌∷◌, ◌==◌, if◌then◌else◌}
use lico.Base.Dict.{get}
use lico.Base.Text.{split, cut}
use lico.Errors.{ok, failure}
use lico.Oidc.{standard}
use lico.Jwt.{Token, text}
use lico.Code.{CodeManager, empty_manager, create}
use lico.Identity.{AuthRecord, identity_manager}
use lico.Payload.Claims.{Value}
use lico.Payload.Authentication.{AuthenticationRequest, parts_of}
use lico.Payload.Token.{
  TokenLib, TokenParams, TokenRequest, RefreshTokenClaims, decode_token_request, new_token_request,
  header_credentials, merge_credentials, validate_token_request,
}
use lico.Clients.{Details}
use lico.Clients.Lookup.{
  lookup, lookup_named, find_registration, finish_lookup, is_implicitly_trusted,
}
use lico.Clients.Registry.{
  validate, check_origin, check_redirect, check_secret, redirect_loop, redirect_round,
}
use lico.Clients.{validate_secret}
use lico.Provider.Managers.{IdentityManagers, TokenMaker}
use lico.Provider.Keys.{ProviderKeys}
use lico.Provider.Grants.{CodeRecord, fake_request}
use lico.Provider.Grants.Exchange.{grant_of}
use lico.Provider.TokenEndpoint.{
  Endpoint, TokenSuccess, bad_request, read_token_request, make_tokens, id_token_of,
  refresh_token_of, token_success, token_handler,
}
use lico.Provider.TokenEndpoint.Replay.{token_handler_twice}
use lico.Provider.TokenEndpoint.Tokens.{make_tokens_sound}
use lico.Tests.{callback, callback_url, urls, client_lib, app, registry, parse_client_id, rs256}

abbrev pub user : AuthRecord
user = record {
  manager = identity_manager;
  sub = "u1";
  authorized_scopes = ("openid", true) ∷ ("offline_access", true) ∷ [];
  authorized_claims = none;
  claims_by_scope = [];
  user = none;
  auth_time = none;
}

abbrev pub managers : IdentityManagers
managers = record {
  has_guest = false;
  name = λ m. "basic";
  scopes_supported = λ m scopes. "profile" ∷ [];
  authenticate = λ ar. ok user;
  authorize = λ m ar auth. ok auth;
  approve_scopes = λ m sub audience scopes. ok "ref";
  approved_scopes = λ m sub audience ref. ok none;
  fetch = λ m id session scopes requested authorized. (some user, true, none);
}

abbrev pub maker : TokenMaker
maker = record {
  make_access_token = λ audience auth method. ok "access";
  make_id_token = λ ar auth session access code method. ok "id";
  make_refresh_token = λ audience auth method. ok "refresh";
}

abbrev pub keys : ProviderKeys
keys = record {
  signing_method_default = some rs256;
  signing_keys = [];
  validation_keys = ("k", "m") ∷ [];
}

-- A refresh token of the client that approves openid only.
abbrev pub refresh_claims_of : RefreshTokenClaims
refresh_claims_of = record {
  standard = record {
    issuer = "https://op.example.org";
    subject = "u1";
    audience = "app";
    expires_at = 900;
    issued_at = 300;
    id = "r1";
  };
  token_type = "2";
  approved_scopes_list = "openid" ∷ [];
  approved_claims_request = none;
  ref = "";
  identity_claims = some (("id", Value.text "u1") ∷ []);
  identity_provider = "basic";
}

abbrev pub parsed_token : Token RefreshTokenClaims
parsed_token = record {
  method = rs256;
  alg = text "RS256";
  kid = text "k";
  claims = refresh_claims_of;
}

abbrev pub token_lib : TokenLib TokenParams
token_lib = record {
  decode_schema = λ p. ok p;
  decode_base64 = λ s. some s;
  query_unescape = λ s. some s;
  parse_refresh = λ raw key. ok parsed_token;
}

abbrev pub endpoint : Endpoint TokenParams
endpoint = record {
  token_lib = token_lib;
  urls = urls;
  client_lib = client_lib;
  parse_client_id = parse_client_id;
  registry = registry;
  managers = managers;
  maker = maker;
  keys = keys;
  get_signing_method = λ alg. some rs256;
  challenge_error = λ challenge method verifier.
      if challenge == verifier then none else some (failure "mismatch");
  access_token_duration = 600;
}

abbrev pub code_params : TokenParams
code_params = record {
  grant_type = "authorization_code";
  code = "c1";
  raw_redirect_uri = callback;
  raw_refresh_token = "";
  raw_scope = "";
  client_id = "app";
  client_secret = "";
  code_verifier = "v";
}

abbrev pub code_request : TokenRequest
code_request = record {
  params = code_params;
  redirect_uri = some callback_url;
  refresh_token = none;
  scopes = [];
}

abbrev pub app_details : Details
app_details = record {
  id = "app";
  display_name = "App";
  redirect_uri = callback;
  trusted = false;
  registration = some app;
}

pub code_request_read :
    read_token_request standard endpoint "POST" (ok code_params) "" ≡ ok (code_request, app_details)
unfolding read_token_request decode_token_request new_token_request header_credentials
    merge_credentials validate_token_request parts_of cut split lookup lookup_named
    find_registration finish_lookup is_implicitly_trusted get validate check_origin check_redirect
    check_secret redirect_loop redirect_round validate_secret
code_request_read = refl

abbrev authorization : AuthenticationRequest
authorization = record (fake_request "app") {
  params = record (fake_request "app").params {
    raw_redirect_uri = callback;
    code_challenge = "v";
    code_challenge_method = "S256";
  };
  response_types = ("code", true) ∷ [];
}

abbrev pub stored_code : CodeRecord
stored_code = record { request = authorization; auth = user; session = none }

abbrev pub codes : CodeManager CodeRecord
codes = create "c1" 5 stored_code empty_manager

token_handler_twice_example :
    (token_handler standard endpoint
      (token_handler standard endpoint codes "POST" (ok code_params) "").0
      "POST"
      (ok code_params)
      "").1
    ≡ bad_request "invalid_grant" "code not found"
token_handler_twice_example =
    token_handler_twice standard endpoint codes "POST" (ok code_params) "" code_request app_details
      code_request_read refl "POST" (ok code_params) "" code_request app_details code_request_read
      refl refl

abbrev code_tokens : TokenSuccess
code_tokens = record {
  access_token = "access";
  token_type = "Bearer";
  expires_in = 600;
  id_token = "id";
  refresh_token = "refresh";
}

make_tokens_sound_example :
    (ok "access" ≡ ok code_tokens.access_token)
    × (code_tokens.id_token ≢ ""
        → (code_request.grant_type ≡ "authorization_code") × (false ≡ false))
    × (code_tokens.refresh_token ≢ ""
        → (code_request.grant_type ≡ "authorization_code") × (true ≡ true))
unfolding make_tokens id_token_of refresh_token_of token_success fake_request get
make_tokens_sound_example =
    make_tokens_sound standard endpoint code_request (some rs256) (grant_of stored_code) code_tokens
      refl
