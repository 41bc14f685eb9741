-- ===== src/Payload/EndSession.antt =====
-- oidc/payload/endsession.go: the request to end a session.
use lico.Base.{String, Option, none, some, ◌==◌, if◌then◌else◌}
use lico.Errors.{
  GoError, error_text, authentication_error, authentication_bad_request, Result, ok, err, panic,
  ◌>>=◌, guard,
}
use lico.Jwt.{Token, Key, IdTokenClaims}
use lico.Oidc.{Oidc}
use lico.Url.{Url, UrlLib}

-- The fields that the schema decoder fills.
pub record EndSessionParams : Type 0 where
  pub raw_id_token_hint : String
  pub raw_post_logout_redirect_uri : String
  pub state : String

-- EndSessionRequest, less the provider's metadata, which nothing reads
pub record EndSessionRequest : Type 0 where
  pub params : EndSessionParams
  pub open params use *
  pub id_token_hint : Option (Token IdTokenClaims)
  pub post_logout_redirect_uri : Option Url

-- What the request calls of other packages.
pub record EndSessionLib (V : Type 0) : Type 0 where
  pub decode_schema : V → Result EndSessionParams
  -- (*jwt.Parser).ParseWithClaims, with SkipClaimsValidation
  pub parse_hint : String → (Token IdTokenClaims → Result Key) → Result (Token IdTokenClaims)

module _ {V : Type 0} (lib : EndSessionLib V) (urls : UrlLib) where
  -- NewEndSessionRequest
  unfoldable pub new_end_session_request : V → Result EndSessionRequest
  new_end_session_request values = do
    params ← lib.decode_schema values
    ok (record {
      params = params;
      id_token_hint = none;
      post_logout_redirect_uri = urls.parse params.raw_post_logout_redirect_uri;
    })

-- NewError and NewBadRequest
abbrev pub end_session_error : EndSessionRequest → String → String → GoError
end_session_error esr id description = authentication_error id description esr.state

abbrev pub end_session_bad_request : EndSessionRequest → String → String → GoError
end_session_bad_request esr id description = authentication_bad_request id description esr.state

module _ (o : Oidc) where
  -- The hint that the parser returned.
  unfoldable pub hinted_request :
      EndSessionRequest → Result (Token IdTokenClaims) → Result EndSessionRequest
  hinted_request esr (ok token) = ok (record esr { id_token_hint = some token })
  hinted_request esr (err e) = err (end_session_bad_request esr o.invalid_request (error_text e))
  hinted_request esr panic = panic

  -- Validate, with the key function that the handler gives
  unfoldable pub validate_end_session :
      {V : Type 0}
      → EndSessionLib V
      → (Token IdTokenClaims → Result Key)
      → EndSessionRequest
      → Result EndSessionRequest
  unfolding hinted_request
  validate_end_session lib key_func esr =
      if esr.raw_id_token_hint == ""
      then ok esr
      else hinted_request esr (lib.parse_hint esr.raw_id_token_hint key_func)

  -- Verify
  unfoldable pub verify_end_session : String → EndSessionRequest → Result (Unit {0})
  verify_end_session user_id esr = elim esr.id_token_hint [
    | none ↦ ok tt
    | some token ↦
        guard (user_id == token.claims.subject)
          (end_session_bad_request esr o.invalid_request "userid mismatch")
  ]

-- MakeRedirectEndSessionRequestURL: none is nil; a URL whose text does not parse again panics
unfoldable pub make_redirect_end_session_request_url :
    UrlLib → EndSessionRequest → Result (Option Url)
make_redirect_end_session_request_url urls esr = elim esr.post_logout_redirect_uri [
  | none ↦ ok none
  | some uri ↦
      if urls.to_string uri == ""
      then ok none
      else if esr.state == ""
      then ok (some uri)
      else elim (urls.parse (urls.to_string uri)) [
        | none ↦ panic
        | some parsed ↦ ok (some (urls.add_query "state" esr.state parsed))
      ]
]
