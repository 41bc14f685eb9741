-- ===== src/Payload/Token.antt =====
-- oidc/payload/token.go: the request of the token endpoint.
pub mod Credentials
use lico.Base.{
  ℕ, String, Bool, true, false, Option, none, some, List, [], ◌∷◌, ◌==◌, ◌||◌, ◌&&◌, not,
  if◌then◌else◌,
}
use lico.Base.Text.{cut}
use lico.Base.Dict.{Dict}
use lico.Errors.{
  GoError, error_text, oauth2_error, failure, Result, ok, err, panic, ◌>>=◌, ◌>>◌, guard,
}
use lico.Url.{Url, UrlLib}
use lico.Jwt.{Token, Key}
use lico.Oidc.{Oidc}
pub use lico.TokenClaims.{RefreshTokenClaims}
use lico.Payload.Authentication.{parts_of}

-- The fields of TokenRequest that the schema decoder fills.
pub record TokenParams : Type 0 where
  pub grant_type : String
  pub code : String
  pub raw_redirect_uri : String
  pub raw_refresh_token : String
  pub raw_scope : String
  pub client_id : String
  pub client_secret : String
  pub code_verifier : String

-- TokenRequest
pub record TokenRequest : Type 0 where
  pub params : TokenParams
  pub open params use *
  pub redirect_uri : Option Url
  pub refresh_token : Option (Token RefreshTokenClaims)
  pub scopes : Dict Bool

-- What the token request calls of other packages; `V` is what the schema decoder reads.
pub record TokenLib (V : Type 0) : Type 0 where
  pub decode_schema : V → Result TokenParams
  -- base64.StdEncoding.DecodeString
  pub decode_base64 : String → Option String
  -- url.QueryUnescape
  pub query_unescape : String → Option String
  -- jwt.ParseWithClaims at refresh tokens
  pub parse_refresh :
      String → (Token RefreshTokenClaims → Result Key) → Result (Token RefreshTokenClaims)

-- A client id and secret of the Authorization header, and the error that DecodeTokenRequest returns
-- beside the request if it gets to its end.
pub record HeaderCredentials : Type 0 where
  pub client_id : String
  pub client_secret : String
  pub pending : Option GoError

abbrev pub no_credentials : HeaderCredentials
no_credentials = record { client_id = ""; client_secret = ""; pending = none }

abbrev or_empty : Option String → String
or_empty none = ""
or_empty (some s) = s

module _ {V : Type 0} (lib : TokenLib V) where
  -- The two parts of the decoded value of a Basic header.
  unfoldable pub unescape_credentials : String × Option String → HeaderCredentials
  unescape_credentials (id, none) = no_credentials
  unescape_credentials (id, some secret) = elim (lib.query_unescape id) [
    | none ↦ record {
      client_id = "";
      client_secret = "";
      pending = some (failure "invalid URL escape");
    }
    | some client_id ↦ record {
      client_id = client_id;
      client_secret = or_empty (lib.query_unescape secret);
      pending = none;
    }
  ]

  -- The switch of DecodeTokenRequest on the first word of the Authorization header.
  unfoldable pub header_credentials : String × Option String → Result HeaderCredentials
  unfolding unescape_credentials cut
  header_credentials (scheme, value) =
      if scheme == "Basic"
      then elim value [
        | none ↦ err (failure "invalid Basic authorization header format")
        | some encoded ↦ elim (lib.decode_base64 encoded) [
          | none ↦ err (failure "invalid Basic authorization value")
          | some basic ↦ ok (unescape_credentials (cut b':' basic))
        ]
      ]
      else ok no_credentials

  -- The request with the credentials of the header.
  unfoldable pub merge_credentials : HeaderCredentials → TokenRequest → Result TokenRequest
  merge_credentials header tr =
      if tr.client_id == ""
      then (if header.client_id == ""
          then err (failure "client_id is missing")
          else ok (record tr {
            params = record tr.params {
              client_id = header.client_id;
              client_secret = header.client_secret;
            };
          }))
      else if not (header.client_id == "") && tr.client_id == header.client_id
      then ok (record tr { params = record tr.params { client_secret = header.client_secret } })
      else ok tr

  -- NewTokenRequest
  unfoldable pub new_token_request : UrlLib → V → Result TokenRequest
  new_token_request urls values = do
    params ← lib.decode_schema values
    ok (record {
      params = params;
      redirect_uri = urls.parse params.raw_redirect_uri;
      refresh_token = none;
      scopes = parts_of params.raw_scope;
    })

  abbrev pending_or : Option GoError → TokenRequest → Result TokenRequest
  pending_or none tr = ok tr
  pending_or (some e) tr = err e

  -- DecodeTokenRequest; the header is the Authorization header's value
  unfoldable pub decode_token_request : UrlLib → V → String → Result TokenRequest
  unfolding cut
  decode_token_request urls values header = do
    tr ← new_token_request urls values
    credentials ← header_credentials (cut b' ' header)
    merged ← merge_credentials credentials tr
    pending_or credentials.pending merged

  -- The key function that Validate hands to the parser.
  abbrev pub refresh_key :
      Option (Token RefreshTokenClaims → Result Key) → Token RefreshTokenClaims → Result Key
  refresh_key none token = err (failure "Not validated")
  refresh_key (some key_func) token = key_func token

  -- Validate
  unfoldable pub validate_token_request :
      Oidc → Option (Token RefreshTokenClaims → Result Key) → TokenRequest → Result TokenRequest
  validate_token_request o key_func tr =
      if tr.grant_type == o.grant_type_authorization_code
      then ok tr
      else if tr.grant_type == o.grant_type_refresh_token
      then (if tr.raw_refresh_token == ""
          then ok tr
          else elim (lib.parse_refresh tr.raw_refresh_token (refresh_key key_func)) [
            | ok token ↦ ok (record tr { refresh_token = some token })
            | err e ↦ err (oauth2_error o.invalid_request (error_text e))
            | panic ↦ panic
          ])
      else err (oauth2_error o.unsupported_grant_type "unsupported grant_type value")
