-- ===== src/Tests.antt =====
-- A small provider for runs of the endpoints: one client, one user, constant tokens.
mod Clients
mod Payload
mod Provider
mod Refresh
mod Authorize
mod Claims
mod Tokens
mod UserInfo
mod EndSession
mod Guest
mod Consent
mod Registration
mod Keys
use lico.Base.{
  ℕ, String, Bool, true, false, Option, none, some, List, [], ◌∷◌, ◌==◌, if◌then◌else◌, ne_of_eq,
  ◌≡◌, refl,
}
use lico.Base.Dict.{Dict}
use lico.Errors.{failure, ok, err}
use lico.Url.{Url, UrlLib}
use lico.Oidc.{Oidc, OidcLaws, standard}
use lico.Jwt.{SigningMethod, rsa, Token, text, public_key}
use lico.Clients.{ClientRegistration, ClientLib, Jwk}
use lico.Clients.Registry.{Registry}
use lico.Clients.Lookup.{ParseClientId}

abbrev pub callback : String
callback = "https://client.example/cb"

abbrev pub callback_url : Url
callback_url = record { scheme = "https"; host = "client.example"; path = "/cb"; rest = "" }

-- Every text parses to the one URL.
abbrev pub urls : UrlLib
urls = record {
  parse = λ s. some callback_url;
  to_string = λ u. callback;
  hostname = λ u. u.host;
  add_query = λ k v u. u;
}

abbrev pub client_lib : ClientLib
client_lib = record {
  decode_public_key = λ k. ok k.material;
  encode_base64 = λ s. s;
  decode_base64 = λ s. some s;
  blake2b_512 = λ key. some (λ s. s);
}

abbrev pub app_key : Jwk
app_key = record { kid = "k"; use_of = "sig"; material = "m" }

abbrev pub app : ClientRegistration
app = record {
  id = "app";
  secret = "";
  trusted = false;
  trusted_scopes = [];
  insecure = false;
  implicit_scopes = [];
  dynamic = false;
  id_issued_at = 0;
  secret_expires_at = 0;
  contacts = [];
  name = "App";
  uri = "";
  grant_types = [];
  application_type = "web";
  redirect_uris = callback ∷ [];
  origins = "https://client.example" ∷ [];
  jwks = some (app_key ∷ []);
  raw_id_token_signed_response_alg = "RS256";
  raw_user_info_signed_response_alg = "";
  raw_request_object_signing_alg = "RS256";
  raw_token_endpoint_auth_method = "";
  raw_token_endpoint_auth_signing_alg = "";
  post_logout_redirect_uris = [];
}

abbrev pub empty_registry : Registry
empty_registry = record {
  trusted_uri = none;
  clients = [];
  allow_dynamic_client_registration = false;
  dynamic_client_secret_duration = 0;
  stateless_validator = none;
}

abbrev pub registry : Registry
registry = record empty_registry { clients = ("app", app) ∷ [] }

abbrev pub parse_client_id : ParseClientId
parse_client_id client_id key = err (failure "no dynamic clients")

abbrev pub rs256 : SigningMethod
rs256 = record { alg = "RS256"; kind = rsa }

-- The constants of the specifications are as the laws want them.
pub standard_laws : OidcLaws standard
standard_laws = record {
  grants_differ = ne_of_eq _ _ refl;
  implicit_ne_code = ne_of_eq _ _ refl;
  applications_differ = ne_of_eq _ _ refl;
  flow_code_ne_implicit = ne_of_eq _ _ refl;
  flow_hybrid_ne_implicit = ne_of_eq _ _ refl;
}
