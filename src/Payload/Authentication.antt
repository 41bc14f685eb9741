-- ===== src/Payload/Authentication.antt =====
-- oidc/payload/authentication.go and request.go: the authentication request and its request object.
pub mod Object
use Prim.Native.Nat.{◌%◌, ◌^◌}
use Prim.Native.String
use lico.Base.{
  ℕ, ◌*◌, String, Bool, true, false, Option, none, some, List, [], ◌∷◌, ◌==◌, ◌||◌, ◌&&◌, not,
  if◌then◌else◌, is_some,
}
use lico.Base.Text.{split}
use lico.Base.Dict.{Dict, flag, set_of, mark}
use lico.Errors.{
  GoError, error_text, authentication_bad_request, authentication_error, failure, Result, ok, err,
  panic, ◌>>=◌, ◌>>◌, guard,
}
use lico.Url.{Url, UrlLib}
use lico.Jwt.{Token, Key, IdTokenClaims, SigningMethod, is_unsigned}
use lico.Oidc.{Oidc}
use lico.Clients.{Secured}
use lico.Payload.Claims.{ClaimsRequest}

-- The fields of AuthenticationRequest that the schema decoder fills.
pub record AuthenticationParams : Type 0 where
  pub raw_scope : String
  pub claims : Option ClaimsRequest
  pub raw_response_type : String
  pub response_mode : String
  pub client_id : String
  pub raw_redirect_uri : String
  pub state : String
  pub nonce : String
  pub raw_prompt : String
  pub raw_id_token_hint : String
  pub raw_max_age : String
  pub raw_request : String
  pub raw_request_uri : String
  pub raw_registration : String
  pub code_challenge : String
  pub code_challenge_method : String

-- RequestObjectClaims, less the standard claims
pub record RequestObjectClaims : Type 0 where
  pub raw_scope : String
  pub claims : Option ClaimsRequest
  pub raw_response_type : String
  pub response_mode : String
  pub client_id : String
  pub raw_redirect_uri : String
  pub state : String
  pub nonce : String
  pub raw_prompt : String
  pub raw_id_token_hint : String
  pub raw_max_age : String
  pub raw_registration : String
  pub code_challenge : String
  pub code_challenge_method : String
  pub client : Option Secured

-- SetSecure
unfoldable pub set_secure : Secured → RequestObjectClaims → Result RequestObjectClaims
set_secure client roc =
    if roc.client_id == client.id
    then ok (record roc { client = some client })
    else err (failure "client ID mismatch")

-- payload.Session
pub record Session : Type 0 where
  pub version : ℕ
  pub id : String
  pub sub : String
  pub provider : String

-- AuthenticationRequest: the decoded fields and those that the code computes. `max_age` is a Duration,
-- an int64 as its bits.
pub record AuthenticationRequest : Type 0 where
  pub params : AuthenticationParams
  pub open params use *
  pub scopes : Dict Bool
  pub response_types : Dict Bool
  pub prompts : Dict Bool
  pub redirect_uri : Option Url
  pub id_token_hint : Option (Token IdTokenClaims)
  pub max_age : ℕ
  pub request : Option (Token RequestObjectClaims)
  pub use_fragment : Bool
  pub flow : String
  pub session : Option Session

-- NewError and NewBadRequest
abbrev pub new_error : AuthenticationRequest → String → String → GoError
new_error ar id description = authentication_error id description ar.state

abbrev pub new_bad_request : AuthenticationRequest → String → String → GoError
new_bad_request ar id description = authentication_bad_request id description ar.state

-- The map of the parts of a text; empty if the text is.
unfoldable pub parts_of : String → Dict Bool
unfolding split
parts_of raw = if raw == "" then [] else set_of (split raw)

-- A field of the request object replaces that of the request, if it is there.
abbrev pub or_else : String → String → String
or_else new old = if new == "" then old else new

abbrev pub claims_or : Option ClaimsRequest → Option ClaimsRequest → Option ClaimsRequest
claims_or none old = old
claims_or (some c) old = some c

-- What the request calls of other packages.
pub record RequestLib (V : Type 0) : Type 0 where
  -- DecodeSchema: it leaves the fields that are not in the schema as they are
  pub decode_schema : V → Result AuthenticationParams
  -- strconv.ParseInt(s, 10, 64), as bits
  pub parse_int : String → Result ℕ
  -- (*jwt.Parser).ParseWithClaims: the key function may change the claims
  pub parse_object :
      String
      → (Token RequestObjectClaims → Result (Key × RequestObjectClaims))
      → Result (Token RequestObjectClaims)
  -- the same, with SkipClaimsValidation
  pub parse_hint : String → (Token IdTokenClaims → Result Key) → Result (Token IdTokenClaims)

-- DecodeSchema, with the error wrapped.
unfoldable pub decode_params : {V : Type 0} → RequestLib V → V → Result AuthenticationParams
decode_params lib values = elim (lib.decode_schema values) [
  | ok params ↦ ok params
  | err e ↦ err (failure (String.◌++◌ "failed to decode authentication request: " (error_text e)))
  | panic ↦ panic
]

module _ (o : Oidc) where
  -- The first part of ApplyRequestObject: the tests, on the scopes that the request has.
  unfoldable pub check_request_object :
      RequestObjectClaims → AuthenticationRequest → Result (Unit {0})
  check_request_object roc ar = do
    guard (flag o.scope_openid ar.scopes) (
        new_bad_request ar o.invalid_request_object
          "openid scope required when using the request parameter")
    guard (roc.raw_response_type == "" || roc.raw_response_type == ar.raw_response_type)
        (new_bad_request ar o.invalid_request_object "request object response_type mismatch")
    guard (roc.client_id == "" || roc.client_id == ar.client_id)
        (new_bad_request ar o.invalid_request_object "request object client_id mismatch")

  -- The fields that ApplyRequestObject sets.
  unfoldable pub merge_request_object :
      RequestObjectClaims → AuthenticationRequest → AuthenticationRequest
  merge_request_object roc ar = record ar {
    scopes = if roc.raw_scope == "" then ar.scopes else parts_of roc.raw_scope;
    params = record ar.params {
      claims = claims_or roc.claims ar.claims;
      raw_redirect_uri = or_else roc.raw_redirect_uri ar.raw_redirect_uri;
      state = or_else roc.state ar.state;
      nonce = or_else roc.nonce ar.nonce;
      raw_prompt = or_else roc.raw_prompt ar.raw_prompt;
      raw_id_token_hint = or_else roc.raw_id_token_hint ar.raw_id_token_hint;
      raw_max_age = or_else roc.raw_max_age ar.raw_max_age;
      raw_registration = or_else roc.raw_registration ar.raw_registration;
      code_challenge_method = or_else roc.code_challenge_method ar.code_challenge_method;
      code_challenge = or_else roc.code_challenge ar.code_challenge;
    };
  }

  -- ApplyRequestObject. On an error its caller drops the request.
  unfoldable pub apply_request_object :
      RequestObjectClaims → AuthenticationRequest → Result AuthenticationRequest
  apply_request_object roc ar = do check_request_object roc ar; ok (merge_request_object roc ar)

  -- The flow and the fragment flag of a response type.
  unfoldable pub flow_of : String → String × Bool
  flow_of raw =
      if raw == o.response_type_code
      then (o.flow_code, false)
      else if raw == o.response_type_id_token || raw == o.response_type_id_token_token
      then (o.flow_implicit, true)
      else if raw == o.response_type_code_id_token
          || raw == o.response_type_code_token
          || raw == o.response_type_code_id_token_token
      then (o.flow_hybrid, true)
      else ("", false)

  -- The switch on the response mode.
  unfoldable pub fragment_of : String → Bool → Bool
  fragment_of mode use_fragment =
      if mode == o.response_mode_fragment
      then true
      else if mode == o.response_mode_query
      then false
      else use_fragment

  module _ {V : Type 0} (urls : UrlLib) (lib : RequestLib V) where
    -- The key function that NewAuthenticationRequest hands to the parser.
    abbrev pub object_key :
        Option (Token RequestObjectClaims → Result (Key × RequestObjectClaims))
        → Token RequestObjectClaims
        → Result (Key × RequestObjectClaims)
    object_key none token = err (failure "Not validated")
    object_key (some key_func) token = key_func token

    -- The part of NewAuthenticationRequest about the request parameter.
    unfoldable pub read_request_object :
        Option (Token RequestObjectClaims → Result (Key × RequestObjectClaims))
        → AuthenticationRequest
        → Result AuthenticationRequest
    read_request_object key_func ar =
        if ar.raw_request == ""
        then ok ar
        else elim (lib.parse_object ar.raw_request (object_key key_func)) [
          | ok token ↦ do
            merged ← apply_request_object token.claims ar
            ok (record merged { request = some token })
          | err e ↦ err (new_bad_request ar o.invalid_request_object (error_text e))
          | panic ↦ panic
        ]

    -- time.Duration(n) * time.Second, in 64 bits
    abbrev pub seconds : ℕ → ℕ
    seconds n = n * 1000000000 % 2 ^ 64

    unfoldable pub max_age_of : String → Result ℕ
    max_age_of raw = if raw == "" then ok 0 else do n ← lib.parse_int raw; ok (seconds n)

    -- Pass through claims are kept only from a signed request object.
    unfoldable pub keep_passthru :
        Option (Token RequestObjectClaims) → Option ClaimsRequest → Option ClaimsRequest
    keep_passthru request none = none
    keep_passthru none (some c) = some (record c { passthru = none })
    keep_passthru (some token) (some c) =
        some (if is_unsigned token.method then record c { passthru = none } else c)

    -- What NewAuthenticationRequest computes once the request object is merged.
    unfoldable pub complete_request : AuthenticationRequest → ℕ → AuthenticationRequest
    complete_request ar max_age = record ar {
      params = record ar.params { claims = keep_passthru ar.request ar.claims };
      redirect_uri = urls.parse ar.raw_redirect_uri;
      response_types = parts_of ar.raw_response_type;
      prompts = parts_of ar.raw_prompt;
      flow = (flow_of ar.raw_response_type).0;
      use_fragment = fragment_of ar.response_mode (flow_of ar.raw_response_type).1;
      max_age = max_age;
    }

    -- The request right after the schema is decoded and the scope is split.
    abbrev pub decoded_request : AuthenticationParams → AuthenticationRequest
    decoded_request params = record {
      params = params;
      scopes = parts_of params.raw_scope;
      response_types = [];
      prompts = [];
      redirect_uri = none;
      id_token_hint = none;
      max_age = 0;
      request = none;
      use_fragment = false;
      flow = "";
      session = none;
    }

    -- NewAuthenticationRequest
    unfoldable pub new_authentication_request :
        V
        → Option (Token RequestObjectClaims → Result (Key × RequestObjectClaims))
        → Result AuthenticationRequest
    new_authentication_request values key_func = do
      params ← decode_params lib values
      merged ← read_request_object key_func (decoded_request params)
      max_age ← max_age_of merged.raw_max_age
      ok (complete_request merged max_age)
