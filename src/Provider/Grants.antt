-- ===== src/Provider/Grants.antt =====
-- The switch on the grant type in TokenHandler of oidc/provider/handlers.go: what a code or a refresh
-- token grants.
pub mod Exchange
pub mod Refresh
use lico.Base.{
  ℕ, String, Bool, true, false, Option, none, some, List, [], ◌∷◌, ◌==◌, ◌||◌, ◌&&◌, not,
  if◌then◌else◌,
}
use lico.Base.Dict.{Dict, get, flag, set_of, put}
use lico.Errors.{GoError, error_text, oauth2_error, Result, ok, err, panic, ◌>>=◌, ◌>>◌, guard}
use lico.Url.{Url, UrlLib}
use lico.Jwt.{SigningMethod, Token, Key}
use lico.Oidc.{Oidc}
use lico.Clients.{ClientRegistration, ClientLib, Details}
use lico.Clients.Registry.{Registry}
use lico.Clients.Lookup.{ParseClientId, lookup}
use lico.Provider.Keys.{ProviderKeys, validate_jwt}
use lico.Code.{CodeManager, pop}
use lico.Payload.Authentication.{AuthenticationRequest, Session}
use lico.Payload.Token.{
  TokenLib, TokenRequest, RefreshTokenClaims, decode_token_request, validate_token_request,
}
use lico.Identity.{AuthRecord, auth_authorize_scopes, authorize_claims}
use lico.Provider.Managers.{IdentityManagers, TokenMaker, manager_from_claims, user_from_claims}

-- code.Record
pub record CodeRecord : Type 0 where
  pub request : AuthenticationRequest
  pub auth : AuthRecord
  pub session : Option Session

-- What the handler has when the grant is checked: `ar`, `auth`, `session` and `authorizedScopes`.
pub record Grant : Type 0 where
  pub request : AuthenticationRequest
  pub auth : AuthRecord
  pub session : Option Session
  pub authorized_scopes : Dict Bool

-- How the switch on the grant type ends. `lost` is an error in the `err` that the refresh case
-- declares for itself: the handler goes on to `done` with its own `err` still nil.
pub data Outcome : Type 0 where
  granted : Grant → Outcome
  failed : GoError → Outcome
  lost : GoError → Outcome
  panicked : Outcome

-- &payload.AuthenticationRequest{ClientID: …}
unfoldable pub fake_request : String → AuthenticationRequest
fake_request client_id = record {
  params = record {
    raw_scope = "";
    claims = none;
    raw_response_type = "";
    response_mode = "";
    client_id = client_id;
    raw_redirect_uri = "";
    state = "";
    nonce = "";
    raw_prompt = "";
    raw_id_token_hint = "";
    raw_max_age = "";
    raw_request = "";
    raw_request_uri = "";
    raw_registration = "";
    code_challenge = "";
    code_challenge_method = "";
  };
  scopes = [];
  response_types = [];
  prompts = [];
  redirect_uri = none;
  id_token_hint = none;
  max_age = 0;
  request = none;
  use_fragment = false;
  flow = "";
  session = none;
}

abbrev pub outcome_of : Result Grant → Outcome
outcome_of (ok g) = granted g
outcome_of (err e) = failed e
outcome_of panic = panicked

-- An error after the second declaration of err.
abbrev pub lost_outcome_of : Result Grant → Outcome
lost_outcome_of (ok g) = granted g
lost_outcome_of (err e) = lost e
lost_outcome_of panic = panicked

-- The check of the scopes that a refresh asks for: all of them, or the authorized scopes.
unfoldable pub requested_scopes : Oidc → Dict Bool → Dict Bool → Dict Bool → Result (Dict Bool)
requested_scopes o approved [] authorized = ok authorized
requested_scopes o approved ((scope, b) ∷ scopes) authorized =
    let rest = requested_scopes o approved scopes (put scope true authorized) in
    if flag scope approved
    then rest
    else err (oauth2_error o.insufficient_scope "insufficient scope")

unfoldable pub authorized_of : Oidc → Dict Bool → Dict Bool → Result (Dict Bool)
unfolding requested_scopes
authorized_of o approved [] = ok approved
authorized_of o approved (scope ∷ scopes) = requested_scopes o approved (scope ∷ scopes) []

-- The scopes approved by the backend, or those of the token if the backend says nothing.
abbrev pub approved_or : Option (Dict Bool) → List String → Dict Bool
approved_or none approved_list = set_of approved_list
approved_or (some approved) approved_list = approved

-- oidc.ValidateCodeChallenge: the error, if any, from the challenge, the method and the verifier
abbrev pub ChallengeCheck : Type 0
ChallengeCheck = String → String → String → Option GoError

module _ (o : Oidc) (challenge_error : ChallengeCheck) where
  -- The test of the code challenge.
  unfoldable pub check_verifier : AuthenticationRequest → TokenRequest → Result (Unit {0})
  check_verifier ar tr =
      if not (tr.code_verifier == "") || not (ar.code_challenge == "")
      then elim (challenge_error ar.code_challenge ar.code_challenge_method tr.code_verifier) [
        | none ↦ ok tt
        | some e ↦ err (oauth2_error o.invalid_grant (error_text e))
      ]
      else ok tt

  -- The case of an authorization code, once the code is popped.
  unfoldable pub exchange_code : TokenRequest → Option CodeRecord → Result Grant
  exchange_code tr none = err (oauth2_error o.invalid_grant "code not found")
  exchange_code tr (some r) = do
    guard (r.request.client_id == tr.client_id) (oauth2_error o.invalid_grant "client_id mismatch")
    guard (r.request.raw_redirect_uri == tr.raw_redirect_uri)
        (oauth2_error o.invalid_grant "redirect_uri mismatch")
    check_verifier r.request tr
    ok (record {
      request = r.request;
      auth = r.auth;
      session = r.session;
      authorized_scopes = r.auth.authorized_scopes;
    })

module _ (o : Oidc) (managers : IdentityManagers) where
  -- What the refresh case does with the user that the manager found.
  unfoldable pub refreshed_grant :
      RefreshTokenClaims → Dict Bool → Option AuthRecord × Bool × Option GoError → Result Grant
  refreshed_grant claims authorized (auth, false, e) =
      err (oauth2_error o.invalid_grant "user not found")
  refreshed_grant claims authorized (auth, true, some e) = err e
  refreshed_grant claims authorized (none, true, none) = panic
  refreshed_grant claims authorized (some auth, true, none) = ok (record {
    request = fake_request claims.audience;
    auth =
        authorize_claims
          (auth_authorize_scopes o (managers.scopes_supported auth.manager) auth authorized)
          claims.approved_claims_request;
    session = none;
    authorized_scopes = authorized;
  })

  -- The refresh case from the lookup of its identity manager on.
  unfoldable pub refresh_user :
      TokenRequest → RefreshTokenClaims → String → Option String → Result Grant
  refresh_user tr claims user_id session_ref = do
    manager ← manager_from_claims managers claims.identity_provider claims.identity_claims
    backend ← managers.approved_scopes manager claims.subject tr.client_id claims.ref
    authorized ← authorized_of o (approved_or backend claims.approved_scopes_list) tr.scopes
    refreshed_grant claims authorized
        (managers.fetch manager user_id session_ref none [] authorized)

  -- The refresh case for the claims of a token: up to the lookup of the manager its errors are the
  -- handler's, from there on they are lost.
  unfoldable pub refresh_claims : TokenRequest → RefreshTokenClaims → Outcome
  refresh_claims tr claims =
      let (user_id, session_ref) =
        user_from_claims managers claims.audience none claims.identity_claims in
      if not (claims.audience == tr.client_id)
      then failed (oauth2_error o.invalid_grant "client_id mismatch")
      else if user_id == ""
      then failed (oauth2_error o.invalid_token "missing data in kc.identity claim")
      else lost_outcome_of (refresh_user tr claims user_id session_ref)

  -- The case of a refresh token.
  unfoldable pub refresh : TokenRequest → Outcome
  refresh tr = elim tr.refresh_token [
    | none ↦ failed (oauth2_error o.invalid_grant "missing refresh_token")
    | some token ↦ refresh_claims tr token.claims
  ]
