-- ===== src/Payload/Validation.antt =====
-- oidc/payload/authentication.go: Validate and Verify of the authentication request.
pub mod Sound
use lico.Base.{
  ℕ, String, Bool, true, false, Option, none, some, List, [], ◌∷◌, ◌==◌, ◌||◌, ◌&&◌, not,
  if◌then◌else◌, leb,
}
use lico.Base.Lists.{length}
use lico.Base.Dict.{Dict, get, has, flag, remove}
use lico.Errors.{
  GoError, error_text, authentication_bad_request, authentication_error, failure, Result, ok, err,
  panic, ◌>>=◌, ◌>>◌, guard,
}
use lico.Url.{Url}
use lico.Jwt.{Token, Key, IdTokenClaims}
use lico.Oidc.{Oidc}
use lico.Payload.Authentication.{AuthenticationRequest, RequestLib, new_error, new_bad_request}

module _ (o : Oidc) where
  -- The response types for which Validate wants a nonce.
  abbrev pub is_implicit_type : String → Bool
  is_implicit_type raw = raw == o.response_type_id_token || raw == o.response_type_id_token_token

  -- The response types that the other cases of its switch list.
  abbrev pub is_other_type : String → Bool
  is_other_type raw =
      raw == o.response_type_code
      || raw == o.response_type_code_id_token
      || raw == o.response_type_code_token
      || raw == o.response_type_code_id_token_token
      || raw == o.response_type_token

  unfoldable pub check_response_type : AuthenticationRequest → Result (Unit {0})
  check_response_type ar =
      if is_implicit_type ar.raw_response_type
      then guard (not (ar.nonce == ""))
          (new_error ar o.invalid_request "nonce is required for implicit flow")
      else guard (is_other_type ar.raw_response_type) (new_error ar o.unsupported_response_type "")

  unfoldable pub check_code_challenge : AuthenticationRequest → Result (Unit {0})
  check_code_challenge ar =
      guard
        (not (ar.flow == o.flow_code || ar.flow == o.flow_hybrid)
          || ar.code_challenge_method == ""
          || ar.code_challenge_method == o.s256_code_challenge_method)
        (new_bad_request ar o.invalid_request "transform algorithm not supported")

  unfoldable pub check_prompts : AuthenticationRequest → Result (Unit {0})
  check_prompts ar =
      guard (not (has o.prompt_none ar.prompts) || leb (length ar.prompts) 1)
        (new_error ar o.invalid_request "cannot request other prompts together with none")

  -- ar.RedirectURI == nil || its host is empty || its scheme is empty, negated
  abbrev pub has_target : Option Url → Bool
  has_target none = false
  has_target (some uri) = not (uri.host == "") && not (uri.scheme == "")

  unfoldable pub check_client : AuthenticationRequest → Result (Unit {0})
  check_client ar = do
    guard (not (ar.client_id == "")) (new_bad_request ar o.invalid_request "missing client_id")
    guard (has_target ar.redirect_uri)
        (new_bad_request ar o.invalid_request "invalid or missing redirect_uri")

  -- The tests of Validate up to the ID token hint; none of them changes the request.
  unfoldable pub check_parameters : AuthenticationRequest → Result (Unit {0})
  check_parameters ar = do
    guard (has o.scope_openid ar.scopes)
        (new_bad_request ar o.invalid_request "missing openid scope in request")
    check_response_type ar
    check_code_challenge ar
    check_prompts ar
    check_client ar

  -- The key function that Validate hands to the parser.
  abbrev pub hint_key : Option (Token IdTokenClaims → Result Key) → Token IdTokenClaims → Result Key
  hint_key none token = err (failure "Not validated")
  hint_key (some key_func) token = key_func token

  module _ {V : Type 0} (lib : RequestLib V) where
    unfoldable pub read_hint :
        Option (Token IdTokenClaims → Result Key)
        → AuthenticationRequest
        → Result AuthenticationRequest
    read_hint key_func ar =
        if ar.raw_id_token_hint == ""
        then ok ar
        else elim (lib.parse_hint ar.raw_id_token_hint (hint_key key_func)) [
          | ok token ↦ ok (record ar { id_token_hint = some token })
          | err e ↦ err (new_bad_request ar o.invalid_request (error_text e))
          | panic ↦ panic
        ]

    -- Offline access is dropped unless a code is asked for.
    unfoldable pub limit_offline : AuthenticationRequest → AuthenticationRequest
    limit_offline ar =
        if flag o.scope_offline_access ar.scopes && not (has o.response_type_code ar.response_types)
        then record ar { scopes = remove o.scope_offline_access ar.scopes }
        else ar

    unfoldable pub check_unsupported : AuthenticationRequest → Result (Unit {0})
    check_unsupported ar = do
      guard (ar.raw_request_uri == "") (new_error ar o.request_uri_not_supported "")
      guard (ar.raw_registration == "") (new_error ar o.registration_not_supported "")

    -- Validate: the request as it leaves it. On an error the handler reads of the request only fields
    -- that Validate does not change.
    unfoldable pub validate_request :
        Option (Token IdTokenClaims → Result Key)
        → AuthenticationRequest
        → Result AuthenticationRequest
    validate_request key_func ar = do
      check_parameters ar
      hinted ← read_hint key_func ar
      check_unsupported hinted
      ok (limit_offline hinted)

  -- Verify
  unfoldable pub verify_user : String → AuthenticationRequest → Result (Unit {0})
  verify_user user_id ar = elim ar.id_token_hint [
    | none ↦ ok tt
    | some token ↦
        guard (user_id == token.claims.subject) (new_error ar o.login_required "userid mismatch")
  ]
