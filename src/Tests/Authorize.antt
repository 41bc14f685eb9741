-- ===== src/Tests/Authorize.antt =====
-- Runs of the authorize endpoint, the keys and the identity managers.
use lico.Base.{String, ◌≡◌, refl, true, none, some, [], ◌⊎◌}
use lico.Base.Dict.{get}
use lico.Errors.{ok, err, failure}
use lico.Oidc.{standard}
use lico.Jwt.{Token, text, public_key, allow_none, is_unsigned}
use lico.Code.{CodeManager, empty_manager}
use lico.Payload.Authentication.{AuthenticationParams, RequestObjectClaims, RequestLib, set_secure}
use lico.Provider.Grants.{CodeRecord}
use lico.Clients.{Secured, ClientRegistration, secure, select_key, secured_with}
use lico.Clients.Lookup.{get_client}
use lico.Provider.Session.{
  SessionLib, no_cookie, cookie, get_session, update_or_create_session, serialize_session,
}
use lico.Provider.AuthorizeEndpoint.{
  Authorizer, Surroundings, AuthenticationSuccess, request_object_key, object_key_for,
  signed_object_key, secured_object_key,
}
use lico.Provider.AuthorizeEndpoint.Keys.{IsSignedBy, request_object_key_sound}
use lico.Tests.{callback, urls, client_lib, app, registry, parse_client_id, rs256}
use lico.Payload.Authentication.{Session}
use lico.Provider.Session.Cookie.{get_session-update_or_create_session}
use lico.Tests.Provider.{user, managers, maker, keys}

abbrev session_lib : SessionLib
session_lib = record {
  encode_gob = λ session. ok session.id;
  decode_gob = λ s. err (failure "gob");
  encrypt = λ s. ok s;
  decrypt = λ s. ok s;
  encode_base64 = λ s. s;
  decode_base64 = λ s. ok s;
}

abbrev pub request_lib : RequestLib AuthenticationParams
request_lib = record {
  decode_schema = λ p. ok p;
  parse_int = λ s. ok 0;
  parse_object = λ raw key. err (failure "no objects");
  parse_hint = λ raw key. err (failure "no hints");
}

abbrev authorizer : Authorizer AuthenticationParams
authorizer = record {
  request_lib = request_lib;
  urls = urls;
  client_lib = client_lib;
  parse_client_id = parse_client_id;
  registry = registry;
  managers = managers;
  maker = maker;
  keys = keys;
  get_signing_method = λ alg. some rs256;
  session_lib = session_lib;
  access_token_duration = 600;
}

abbrev surroundings : Surroundings
surroundings = record { cookie = no_cookie; session_id = "s1"; code = "c1"; now = 5 }

abbrev pub params : AuthenticationParams
params = record {
  raw_scope = "openid";
  claims = none;
  raw_response_type = "code";
  response_mode = "";
  client_id = "app";
  raw_redirect_uri = callback;
  state = "st";
  nonce = "";
  raw_prompt = "";
  raw_id_token_hint = "";
  raw_max_age = "";
  raw_request = "";
  raw_request_uri = "";
  raw_registration = "";
  code_challenge = "";
  code_challenge_method = "";
}

abbrev codes : CodeManager CodeRecord
codes = empty_manager

abbrev answer : AuthenticationSuccess
answer = record {
  code = "c1";
  access_token = "";
  token_type = "";
  expires_in = 0;
  id_token = "";
  state = "st";
  scope = "openid offline_access";
}

-- A signed request object of the client.
abbrev pub object_claims : RequestObjectClaims
object_claims = record {
  raw_scope = "";
  claims = none;
  raw_response_type = "";
  response_mode = "";
  client_id = "app";
  raw_redirect_uri = "";
  state = "";
  nonce = "";
  raw_prompt = "";
  raw_id_token_hint = "";
  raw_max_age = "";
  raw_registration = "";
  code_challenge = "";
  code_challenge_method = "";
  client = none;
}

abbrev pub object : Token RequestObjectClaims
object = record { method = rs256; alg = text "RS256"; kid = text "k"; claims = object_claims }

abbrev pub secured_app : Secured
secured_app = record {
  id = "app";
  display_name = "App";
  application_type = "web";
  kid = "k";
  key = "m";
  trusted_scopes = [];
  registration = app;
}

abbrev pub secured_claims : RequestObjectClaims
secured_claims = record object_claims { client = some secured_app }

request_object_key_sound_example :
    ((public_key "m" ≡ allow_none)
      × (is_unsigned object.method ≡ true)
      × (secured_claims ≡ object.claims))
    ⊎ ((registration : ClientRegistration) × (get_client parse_client_id registry "app"
          ≡ ok (some registration))
        × IsSignedBy client_lib registration object (public_key "m") secured_claims)
unfolding request_object_key get_client get object_key_for signed_object_key secured_object_key
    secure select_key secured_with set_secure
request_object_key_sound_example =
    request_object_key_sound standard authorizer object (public_key "m") secured_claims refl

abbrev basic : String
basic = "basic"

abbrev made : Session
made = record { version = 2; id = "s1"; sub = "u1"; provider = "basic" }

-- A codec that gives back this session.
abbrev made_lib : SessionLib
made_lib = record session_lib { decode_gob = λ s. ok made }

get_session-update_or_create_session_example :
    (get_session made_lib (cookie "s1") ≡ ok (some made))
    × ((other : String)
        → update_or_create_session made_lib other managers.name (some made) user ≡ ok (made, none))
unfolding update_or_create_session serialize_session
get_session-update_or_create_session_example =
    get_session-update_or_create_session made_lib "s1" managers.name none user made "s1"
      (record { gob = λ raw h. refl; cipher = λ raw text h. cc; base64 = λ text. refl }) refl
