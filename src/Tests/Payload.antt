-- ===== src/Tests/Payload.antt =====
-- Runs of the requests.
use lico.Base.{◌≡◌, ◌≢◌, refl, true, none, some, [], ◌∷◌, ne_of_eq}
use lico.Base.Dict.{get, put, mark}
use lico.Base.Text.{split}
use lico.Errors.{ok, err, failure}
use lico.Oidc.{standard}
use lico.Payload.Claims.{ClaimsRequest}
use lico.Payload.Authentication.{
  AuthenticationParams, AuthenticationRequest, RequestLib, decoded_request, read_request_object,
  complete_request, parts_of, check_request_object,
}
use lico.Payload.Authentication.Object.{passthru_unsigned}
use lico.Payload.Validation.{
  validate_request, check_parameters, check_response_type, check_code_challenge, check_prompts,
  check_client, read_hint, check_unsupported, limit_offline,
}
use lico.Payload.Validation.Sound.{IsValidated, validate_request-IsValidated}
use lico.Payload.Registration.{ClientRegistrationRequest, RegistrationLib, validate_registration}
use lico.Payload.Registration.Accepted.{validate_registration_enc}
use lico.Tests.{callback, callback_url, urls, app_key, rs256}
use lico.Tests.Authorize.{params, object, request_lib}

abbrev plain : AuthenticationRequest
plain = record (decoded_request standard urls request_lib params) {
  response_types = ("code", true) ∷ [];
  redirect_uri = some callback_url;
  flow = "code";
  scopes = ("openid", true) ∷ [];
}

validate_request-IsValidated_example : IsValidated standard request_lib none plain plain
unfolding validate_request check_parameters check_response_type check_code_challenge check_prompts
    check_client read_hint check_unsupported limit_offline get parts_of split mark put
validate_request-IsValidated_example =
    validate_request-IsValidated standard request_lib none plain plain refl

-- A request with pass-through claims, and a signed request object without claims.
abbrev passed_claims : ClaimsRequest
passed_claims = record { user_info = none; id_token = none; passthru = some "{}" }

abbrev object_lib : RequestLib AuthenticationParams
object_lib = record request_lib { parse_object = λ raw key. ok object }

abbrev with_object : AuthenticationParams
with_object = record params { claims = some passed_claims; raw_request = "o" }

passthru_unsigned_example :
    (merged : AuthenticationRequest) × (read_request_object standard urls object_lib none
        (decoded_request standard urls object_lib with_object)
      ≡ ok merged)
    × ((complete_request standard urls object_lib merged 0).claims ≡ some passed_claims)
unfolding check_request_object get parts_of split mark put
passthru_unsigned_example =
    passthru_unsigned standard urls object_lib with_object object passed_claims 0 none
      (ne_of_eq _ _ refl) refl refl refl refl refl

abbrev merged_request : AuthenticationRequest
merged_request =
    complete_request standard urls object_lib
      (record (decoded_request standard urls object_lib with_object) { request = some object }) 0

abbrev pub registration_lib : RegistrationLib
registration_lib = record {
  decode_json = λ s. err (failure "json");
  unmarshal_jwks = λ s. err (failure "jwks");
  get_signing_method = λ alg. some rs256;
  rs256_alg = "RS256";
}

abbrev pub web_client : ClientRegistrationRequest
web_client = record {
  redirect_uris = callback ∷ [];
  response_types = "id_token token" ∷ [];
  grant_types = "authorization_code" ∷ "implicit" ∷ [];
  application_type = "web";
  contacts = [];
  client_name = "App";
  client_uri = "";
  raw_jwks = none;
  raw_id_token_signed_response_alg = "RS256";
  raw_user_info_signed_response_alg = "";
  raw_request_object_signing_alg = "";
  raw_token_endpoint_auth_method = "none";
  raw_token_endpoint_auth_signing_alg = "";
  post_logout_redirect_uris = [];
  jwks = some (app_key ∷ []);
}

-- Two keys, each with its use.
abbrev enc_client : ClientRegistrationRequest
enc_client = record web_client {
  jwks = some (app_key ∷ record { kid = "e"; use_of = "enc"; material = "m" } ∷ []);
}

validate_registration_enc_example :
    validate_registration standard urls registration_lib enc_client ≢ ok enc_client
validate_registration_enc_example =
    validate_registration_enc standard urls registration_lib enc_client enc_client _ refl refl
