-- ===== src/Identity/Identifier.antt =====
-- identity/managers/identifier.go: the identity manager on the identifier, as far as it ends sessions,
-- answers for approved scopes and fetches users. Authenticate and Authorize have
-- modules of their own.
pub mod Authorize
pub mod Authenticate
pub mod Consented
pub mod Fetched
pub mod Locked
pub mod SignedIn
use lico.Base.{
  String, Bool, false, Option, none, some, List, [], ◌∷◌, ◌++◌, ◌==◌, ◌&&◌, not, if◌then◌else◌,
}
use lico.Base.Dict.{Dict}
use lico.Errors.{failure, redirect_error, Result, ok, err, panic, ◌>>=◌, ◌>>◌, deref}
use lico.Oidc.{Oidc}
use lico.Url.{Url, UrlLib}
use lico.Clients.{Details}
use lico.Payload.Claims.{ClaimNames, ClaimsRequestMap}
use lico.Payload.EndSession.{EndSessionRequest, verify_end_session}
use lico.Identity.{AuthRecord, User, identity_manager, authorize_scopes}
use lico.Identity.Claims.{get_user_claims_for_scopes}

-- What the manager uses: the configured sign-out page and scopes, the identifier's methods for the
-- request at hand, the lookup of a client by its id and a redirect URI, without a secret
-- (clients.Registry.Lookup with the request's origin), random strings, and URLs.
pub record Identifier : Type 0 where
  pub signed_out_uri : String
  pub scopes_supported : List String
  pub identifier_scopes : List String
  pub logon_user : Option User
  pub end_session : User → Option Url → String → Result (Option Url)
  pub get_user_from_id : String → Option String → Dict Bool → Result (Option User)
  pub lookup_client : String → Option Url → Result Details
  pub random_string : String
  pub urls : UrlLib
  pub set_query : List (String × String) → Url → Url

module _ (o : Oidc) (i : Identifier) where
  -- A client that the lookup takes, with its id; an error of the lookup makes it none.
  unfoldable pub looked_up : String → Result Details → Result (Option (String × Details))
  looked_up id (ok details) = ok (some (id, details))
  looked_up id (err e) = ok none
  looked_up id panic = panic

  -- The client of the hint.
  unfoldable pub hinted_client : EndSessionRequest → Result (Option (String × Details))
  unfolding looked_up
  hinted_client esr = elim esr.id_token_hint [
    | none ↦ ok none
    | some token ↦
        looked_up token.claims.audience
          (i.lookup_client token.claims.audience esr.post_logout_redirect_uri)
  ]

  abbrev pub is_trusted : Option (String × Details) → Bool
  is_trusted none = false
  is_trusted (some (id, details)) = details.trusted

  -- A redirect to where the identifier ended the session.
  unfoldable pub redirect_to : Option Url → Result (Unit {0})
  redirect_to none = ok tt
  redirect_to (some uri) = err (redirect_error "" uri)

  -- What is done for a user that is logged on.
  unfoldable pub end_user_session :
      EndSessionRequest → Option (String × Details) → Option User → Result (Unit {0})
  unfolding redirect_to verify_end_session
  end_user_session esr client none = ok tt
  end_user_session esr none (some u) = ok tt
  end_user_session esr (some (id, details)) (some u) = do
    verify_end_session o u.subject esr
    uri ←
        if details.trusted then i.end_session u esr.post_logout_redirect_uri esr.state else ok none
    redirect_to uri

  -- Whether the request has a redirect URI that is not empty.
  abbrev pub has_redirect : EndSessionRequest → Bool
  has_redirect esr = elim esr.post_logout_redirect_uri [
    | none ↦ false
    | some uri ↦ not (i.urls.to_string uri == "")
  ]

  -- The query of the sign-out page.
  abbrev sign_out_query : Option (String × Details) → List (String × String)
  sign_out_query none = []
  sign_out_query (some (id, details)) = ("flow", "oidc") ∷ ("client_id", id) ∷ []

  -- The redirect to the page that asks whether to sign out.
  unfoldable pub sign_out_page : Option (String × Details) → Result (Unit {0})
  sign_out_page client = do
    uri ← deref (i.urls.parse i.signed_out_uri)
    err (redirect_error o.interaction_required (i.set_query (sign_out_query client) uri))

  -- EndSession
  unfoldable pub end_session : EndSessionRequest → Result (Unit {0})
  unfolding hinted_client end_user_session sign_out_page
  end_session esr = do
    client ← hinted_client esr
    end_user_session esr client i.logon_user
    if is_trusted client && has_redirect esr then ok tt else sign_out_page client

-- ApproveScopes and ApprovedScopes of both managers, with the manager's name in the error
unfoldable pub approve_scopes : String → String → String → Dict Bool → Result String
approve_scopes random_string sub audience approved = ok random_string

unfoldable pub approved_scopes : String → String → String → String → Result (Option (Dict Bool))
approved_scopes name sub audience ref = if ref == "" then err (failure "invalid ref") else ok none

module _ (o : Oidc) (names : ClaimNames) (i : Identifier) where
  -- ScopesSupported
  unfoldable pub scopes_supported : Dict Bool → List String
  scopes_supported scopes = i.scopes_supported ++ i.identifier_scopes

  -- The record of NewAuthRecord and SetUser for what is authorized.
  unfoldable pub fetched_record :
      User → Option (Dict Bool × Dict Bool) → List ClaimsRequestMap → Result AuthRecord
  unfolding get_user_claims_for_scopes
  fetched_record u authorized requested = do
    let scopes : Dict Bool = elim authorized [ none ↦ [] | some (granted, refused) ↦ granted ]
    claims ← get_user_claims_for_scopes names (some u) scopes requested
    ok (record {
      manager = identity_manager;
      sub = u.subject;
      authorized_scopes = scopes;
      authorized_claims = none;
      claims_by_scope = claims;
      user = some u;
      auth_time = none;
    })

  unfoldable pub fetched_user :
      Dict Bool → List ClaimsRequestMap → Result (Option User) → Result AuthRecord
  unfolding fetched_record authorize_scopes scopes_supported
  fetched_user scopes requested (err e) =
      err (failure "IdentifierIdentityManager: identifier error")
  fetched_user scopes requested panic = panic
  fetched_user scopes requested (ok none) = err (failure "IdentifierIdentityManager: no user")
  fetched_user scopes requested (ok (some u)) =
      fetched_record u (authorize_scopes o scopes_supported (some u) scopes) requested

  -- Fetch: an error says that nothing is found; nil scopes are the empty map
  unfoldable pub fetch :
      String → Option String → Dict Bool → List ClaimsRequestMap → Dict Bool → Result AuthRecord
  unfolding fetched_user
  fetch user_id session_ref scopes requested requested_scopes =
      fetched_user scopes requested (i.get_user_from_id user_id session_ref requested_scopes)
