-- ===== src/Payload/Registration.antt =====
-- oidc/payload/registration.go: the request of the dynamic client registration endpoint.
pub mod Accepted
use lico.Base.{
  String, Bool, true, false, Option, none, some, List, [], ◌∷◌, ◌==◌, ◌||◌, ◌&&◌, not,
  if◌then◌else◌, starts_with, is_some,
}
use lico.Base.Lists.{contains}
use lico.Base.Dict.{Dict, flag, mark, keys}
use lico.Errors.{
  GoError, error_text, oauth2_error, failure, Result, ok, err, panic, ◌>>=◌, ◌>>◌, guard,
}
use lico.Url.{Url, UrlLib}
use lico.Jwt.{SigningMethod}
use lico.Oidc.{Oidc}
use lico.Clients.{ClientRegistration, Jwk, is_local_native_http_uri, is_local_native_host_uri}
use Prim.Native.String

-- ClientRegistrationRequest
pub record ClientRegistrationRequest : Type 0 where
  pub redirect_uris : List String
  pub response_types : List String
  pub grant_types : List String
  pub application_type : String
  pub contacts : List String
  pub client_name : String
  pub client_uri : String
  pub raw_jwks : Option String
  pub raw_id_token_signed_response_alg : String
  pub raw_user_info_signed_response_alg : String
  pub raw_request_object_signing_alg : String
  pub raw_token_endpoint_auth_method : String
  pub raw_token_endpoint_auth_signing_alg : String
  pub post_logout_redirect_uris : List String
  pub jwks : Option (List Jwk)

-- What the request calls of other packages.
pub record RegistrationLib : Type 0 where
  -- the JSON decoder on the body
  pub decode_json : String → Result ClientRegistrationRequest
  -- gojwk.Unmarshal: the keys of the set
  pub unmarshal_jwks : String → Result (List Jwk)
  pub get_signing_method : String → Option SigningMethod
  -- jwt.SigningMethodRS256.Alg()
  pub rs256_alg : String

-- An error with a text in front.
abbrev wrap {ℓ} : {A : Type ℓ} → String → Result A → Result A
wrap prefix (ok a) = ok a
wrap prefix (err e) = err (failure (String.◌++◌ prefix (error_text e)))
wrap prefix panic = panic

-- DecodeClientRegistrationRequest, on the content type and the body
unfoldable pub decode_registration_request :
    RegistrationLib → String → String → Result ClientRegistrationRequest
decode_registration_request lib content_type body = do
  guard (starts_with content_type "application/json") (failure "invalid content-type")
  crr ← wrap "failed to decode client registration request: " (lib.decode_json body)
  elim crr.raw_jwks [
    | none ↦ ok crr
    | some raw ↦
        wrap "failed to decode client registration request jwks: " (lib.unmarshal_jwks raw)
        >>= λ ks. ok (record crr { jwks = some ks })
  ]

-- A list that is empty gets one entry.
abbrev pub or_default : String → List String → List String
or_default s [] = s ∷ []
or_default s (t ∷ ts) = t ∷ ts

-- len(l) != 0
abbrev pub is_nonempty : List String → Bool
is_nonempty [] = false
is_nonempty (s ∷ ss) = true

abbrev pub or_text : String → String → String
or_text s t = if t == "" then s else t

-- for each text: the error if it fails the test
unfoldable pub check_all : (String → Result (Unit {0})) → List String → Result (Unit {0})
check_all check [] = ok tt
check_all check (s ∷ ss) = check s >> check_all check ss

abbrev pub marked_by : Option (List String) → Dict Bool → Dict Bool
marked_by none m = m
marked_by (some grants) m = mark grants m

module _ (o : Oidc) where
  abbrev pub invalid_metadata : String → GoError
  invalid_metadata text = oauth2_error o.invalid_client_metadata text

  abbrev pub invalid_uri : String → GoError
  invalid_uri text = oauth2_error o.invalid_redirect_uri text

  -- The grant types that a response type requires; none for a type that is dropped.
  unfoldable pub required_by : String → Option (List String)
  required_by t =
      if t == o.response_type_code
      then some (o.grant_type_authorization_code ∷ [])
      else if t == o.response_type_code_id_token
          || t == o.response_type_code_id_token_token
          || t == o.response_type_code_token
          || t == o.response_type_id_token
          || t == o.response_type_id_token_token
      then some (o.grant_type_authorization_code ∷ o.grant_type_implicit ∷ [])
      else if t == o.response_type_token
      then some []
      else none

  -- The loop over the response types: those that are kept.
  unfoldable pub kept_response_types : List String → List String
  kept_response_types [] = []
  kept_response_types (t ∷ ts) =
      let rest = kept_response_types ts in if is_some (required_by t) then t ∷ rest else rest

  -- The same loop: the map of required grant types.
  unfoldable pub required_grant_types : List String → Dict Bool → Dict Bool
  required_grant_types [] m = m
  required_grant_types (t ∷ ts) m = required_grant_types ts (marked_by (required_by t) m)

  abbrev pub is_known_grant_type : String → Bool
  is_known_grant_type t =
      t == o.grant_type_authorization_code
      || t == o.grant_type_implicit
      || t == o.grant_type_refresh_token

  -- The loop over the grant types.
  unfoldable pub kept_grant_types : List String → List String
  kept_grant_types [] = []
  kept_grant_types (t ∷ ts) =
      let rest = kept_grant_types ts in if is_known_grant_type t then t ∷ rest else rest

  module _ (urls : UrlLib) where
    -- One redirect URI of a web client.
    unfoldable pub check_web_uri : Bool → String → Result (Unit {0})
    check_web_uri implicit s = elim (urls.parse s) [
      | none ↦ err (invalid_uri "failed to parse redirect_uris")
      | some uri ↦
          guard (not implicit || uri.scheme == "https")
            (invalid_uri "web clients must use https redirect_uris")
          >> guard (not implicit || not (is_local_native_host_uri urls uri))
              (invalid_uri "web clients must not use localhost redirect_uris")
    ]

    -- One redirect URI of a native client.
    unfoldable pub check_native_uri : String → Result (Unit {0})
    check_native_uri s = elim (urls.parse s) [
      | none ↦ err (invalid_uri "failed to parse redirect_uris")
      | some uri ↦
          guard (is_local_native_http_uri urls uri)
            (invalid_uri "native clients must only use localhost redirect_uris with http")
    ]

    -- The switch on the application type.
    unfoldable pub check_redirect_uris : String → Bool → List String → Result (Unit {0})
    check_redirect_uris application_type implicit uris =
        if application_type == o.application_type_web
        then check_all (check_web_uri implicit) uris
        else if application_type == o.application_type_native
        then check_all check_native_uri uris
        else err (invalid_metadata "unknown application_type")

    abbrev pub check_logout_uri : String → Result (Unit {0})
    check_logout_uri s =
        guard (is_some (urls.parse s))
          (invalid_metadata "failed to parse post_logout_redirect_uris")

  -- An algorithm that is named must be known.
  abbrev pub check_alg : RegistrationLib → String → String → Result (Unit {0})
  check_alg lib text alg =
      guard (alg == "" || is_some (lib.get_signing_method alg)) (invalid_metadata text)

  -- The loop over the keys, with its two flags.
  unfoldable pub check_keys : Bool → Bool → List Jwk → Result (List Jwk)
  check_keys enc empty [] = ok []
  check_keys enc empty (key ∷ ks) =
      let unset = key.use_of == "" in
      let for_enc = key.use_of == "enc" in
      let rest = check_keys (enc || for_enc) (empty || unset) ks in
      if unset && enc || for_enc && empty
      then err (invalid_metadata "jwks includes enc key and unset use key")
      else do
        checked ← rest
        ok (record key { use_of = if unset then "sig" else key.use_of } ∷ checked)

  -- The part of Validate about the key set: an empty one is dropped.
  unfoldable pub check_jwks : Option (List Jwk) → Result (Option (List Jwk))
  check_jwks none = ok none
  check_jwks (some []) = ok none
  check_jwks (some (key ∷ ks)) = do checked ← check_keys false true (key ∷ ks); ok (some checked)

  -- The defaults that Validate fills in, and the lists that it filters.
  unfoldable pub fill_defaults :
      RegistrationLib → ClientRegistrationRequest → ClientRegistrationRequest
  fill_defaults lib crr = record crr {
    response_types = kept_response_types (or_default o.response_type_code crr.response_types);
    grant_types = kept_grant_types (or_default o.grant_type_authorization_code crr.grant_types);
    application_type = or_text o.application_type_web crr.application_type;
    raw_id_token_signed_response_alg = or_text lib.rs256_alg crr.raw_id_token_signed_response_alg;
    raw_token_endpoint_auth_method =
        or_text o.auth_method_client_secret_basic crr.raw_token_endpoint_auth_method;
  }

  -- The test that the registered grant types hold the required ones.
  unfoldable pub check_grant_types : List String → List String → Result (Unit {0})
  check_grant_types required registered =
      check_all
        (λ g.
          guard (contains g registered)
            (invalid_metadata "grant_types conflict with response_types"))
        required

  -- The tests of Validate after those of the redirect URIs; the request has its defaults.
  unfoldable pub check_metadata :
      UrlLib → RegistrationLib → ClientRegistrationRequest → Result (Unit {0})
  check_metadata urls lib crr = do
    check_alg lib "unknown id_token_signed_response_alg" crr.raw_id_token_signed_response_alg
    check_alg lib "unknown userinfo_signed_response_alg" crr.raw_user_info_signed_response_alg
    check_alg lib "unknown request_object_signing_alg" crr.raw_request_object_signing_alg
    guard
        (crr.raw_token_endpoint_auth_method == ""
          || crr.raw_token_endpoint_auth_method == o.auth_method_client_secret_basic
          || crr.raw_token_endpoint_auth_method == o.auth_method_none)
        (invalid_metadata "unsupported token_endpoint_auth_method")
    check_alg lib "unknown token_endpoint_auth_signing_alg" crr.raw_token_endpoint_auth_signing_alg
    check_all (check_logout_uri urls) crr.post_logout_redirect_uris

  -- Validate: the request with its defaults. On an error its caller drops the request.
  unfoldable pub validate_registration :
      UrlLib → RegistrationLib → ClientRegistrationRequest → Result ClientRegistrationRequest
  validate_registration urls lib crr = do
    guard (is_nonempty crr.redirect_uris) (invalid_uri "redirect_uris required")
    check_grant_types
        (keys (required_grant_types (or_default o.response_type_code crr.response_types) []))
        (fill_defaults lib crr).grant_types
    check_redirect_uris urls (fill_defaults lib crr).application_type
        (contains o.grant_type_implicit (fill_defaults lib crr).grant_types) crr.redirect_uris
    check_metadata urls lib (fill_defaults lib crr)
    checked ← check_jwks crr.jwks
    ok (record (fill_defaults lib crr) { jwks = checked })

-- ClientRegistration of registration.go
unfoldable pub client_registration : ClientRegistrationRequest → ClientRegistration
client_registration crr = record {
  id = "";
  secret = "";
  trusted = false;
  trusted_scopes = [];
  insecure = false;
  implicit_scopes = [];
  dynamic = false;
  id_issued_at = 0;
  secret_expires_at = 0;
  contacts = crr.contacts;
  name = crr.client_name;
  uri = crr.client_uri;
  grant_types = crr.grant_types;
  application_type = crr.application_type;
  redirect_uris = crr.redirect_uris;
  origins = [];
  jwks = crr.jwks;
  raw_id_token_signed_response_alg = crr.raw_id_token_signed_response_alg;
  raw_user_info_signed_response_alg = crr.raw_user_info_signed_response_alg;
  raw_request_object_signing_alg = crr.raw_request_object_signing_alg;
  raw_token_endpoint_auth_method = crr.raw_token_endpoint_auth_method;
  raw_token_endpoint_auth_signing_alg = crr.raw_token_endpoint_auth_signing_alg;
  post_logout_redirect_uris = crr.post_logout_redirect_uris;
}
