-- ===== src/Identity/Guest/Authorize.antt =====
-- Authorize and Fetch of identity/managers/guest.go.
use lico.Base.{
  String, Bool, true, Option, none, some, List, [], ◌∷◌, ◌==◌, ◌&&◌, not, if◌then◌else◌,
}
use lico.Base.Dict.{Dict, remove, has, flag, put, keys, set_of}
use lico.Errors.{error_text, failure, Result, ok, err, panic, ◌>>=◌, ◌>>◌, guard, or_error}
use lico.Oidc.{Oidc}
use lico.Clients.{Details, Secured}
use lico.Payload.Claims.{ClaimNames, ClaimsRequestMap, Value}
use lico.Payload.Authentication.{AuthenticationRequest, new_error, new_bad_request}
use lico.Identity.{
  AuthRecord, User, guest_manager, auth_authorize_scopes, authorize_claims, authorize_scopes,
}
use lico.Identity.Claims.{get_user_claims_for_scopes}
use lico.TokenClaims.{scope_guest_ok}
use lico.Identity.Guest.{
  GuestManager, GuestUser, guest_scopes_supported, guest_user, guest_manager_name,
  new_guest_user_from_claims,
}

-- The keys of one map that are in another, put into a third: the loops that approve scopes.
unfoldable pub approve_listed : Dict Bool → List String → Dict Bool → Dict Bool
approve_listed wanted [] approved = approved
approve_listed wanted (scope ∷ scopes) approved =
    approve_listed wanted scopes (if has scope wanted then put scope true approved else approved)

unfoldable pub approve_supported : Dict Bool → List String → Dict Bool → Dict Bool
approve_supported supported [] approved = approved
approve_supported supported (scope ∷ scopes) approved =
    approve_supported supported scopes
      (if has scope supported then put scope true approved else approved)

module _ (o : Oidc) (im : GuestManager) where
  -- The delete of the offline scope; consent is never given.
  unfoldable pub without_offline : AuthenticationRequest → AuthenticationRequest
  without_offline ar =
      if flag o.scope_offline_access ar.scopes && not (flag o.prompt_consent ar.prompts)
      then record ar { scopes = remove o.scope_offline_access ar.scopes }
      else ar

  -- The scopes that are approved where the client is not trusted with all of them.
  unfoldable pub approved_for : Secured → Dict Bool → Dict Bool
  unfolding approve_listed approve_supported guest_scopes_supported
  approved_for secured scopes = approve_listed scopes (o.scope_openid ∷ []) (
      approve_listed scopes secured.trusted_scopes
        (approve_supported (set_of (guest_scopes_supported im none)) (keys scopes) []))

  -- The approved scopes for a client.
  unfoldable pub approve_guest_scopes :
      AuthenticationRequest → Details → Secured → Result (Dict Bool)
  unfolding approved_for
  approve_guest_scopes ar details secured =
      if details.trusted && im.has_no_trusted_scopes secured then ok ar.scopes else do
        guard (flag scope_guest_ok (approved_for secured ar.scopes)) (
            new_bad_request ar o.invalid_request
              "GuestIdentityManager: client does not authorize LibreGraph.GuestOK scope")
        ok (approved_for secured ar.scopes)

  -- The lookup of the client, with its error for the request.
  unfoldable pub access_of : AuthenticationRequest → Result Details → Result Details
  access_of ar (ok details) = ok details
  access_of ar (err e) = err (new_error ar o.access_denied (error_text e))
  access_of ar panic = panic

  -- The checks of the client of a request.
  unfoldable pub authorize_client : AuthenticationRequest → AuthRecord → Secured → Result AuthRecord
  unfolding access_of approve_guest_scopes auth_authorize_scopes guest_scopes_supported
  authorize_client ar auth secured = do
    details ← access_of ar (im.lookup_client ar.client_id ar.redirect_uri)
    guard (details.id == secured.id) (new_error ar o.access_denied "client mismatch")
    approved ← approve_guest_scopes ar details secured
    ok (
        authorize_claims
          (auth_authorize_scopes o (λ scopes. guest_scopes_supported im (some scopes)) auth
            approved)
          ar.claims)

  -- Authorize: the record, beside the request as it leaves it.
  unfoldable pub guest_authorize :
      AuthenticationRequest → AuthRecord → Result (AuthRecord × AuthenticationRequest)
  unfolding without_offline authorize_client
  guest_authorize ar auth = do
    let limited : AuthenticationRequest = without_offline ar
    request ←
        or_error
          (new_error limited o.invalid_request_object
            "GuestIdentityManager: authorize without request object")
          limited.request
    secured ←
        or_error
          (new_bad_request limited o.invalid_request_object
            "GuestIdentityManager: authorize without secure client")
          request.claims.client
    guard (not (flag o.prompt_consent ar.prompts)) (
        new_error limited o.interaction_required (
          if flag o.prompt_none ar.prompts
          then "consent required"
          else "consent required, but not supported for guests"))
    granted ← authorize_client limited auth secured
    ok (granted, limited)

-- What the context of a Fetch has: the user of a record, or the identity claims and the provider of the
-- token.
pub data FetchContext : Type 0 where
  record_user : Option User → FetchContext
  token_claims : Option (Dict Value) → String → FetchContext
  no_context : FetchContext

module _ (o : Oidc) (names : ClaimNames) (im : GuestManager) where
  -- The user of the claims: a panic where they are not those of a guest, since the nil user is used.
  unfoldable pub claimed_user : Option GuestUser → Result User
  unfolding guest_user
  claimed_user none = panic
  claimed_user (some u) = ok (guest_user im u)

  unfoldable pub context_user : FetchContext → Result User
  unfolding claimed_user new_guest_user_from_claims
  context_user (record_user none) = panic
  context_user (record_user (some u)) = ok u
  context_user no_context = err (failure "GuestIdentityManager: no user in context")
  context_user (token_claims none provider) =
      err (failure "GuestIdentityManager: no user in context")
  context_user (token_claims (some claims) provider) =
      if provider == guest_manager_name
      then (do found ← new_guest_user_from_claims claims; claimed_user found)
      else err (failure "GuestIdentityManager: no user in context")

  -- Fetch: an error says that nothing is found; the scopes are none where they are nil
  unfoldable pub guest_fetch :
      FetchContext → String → Option (Dict Bool) → List ClaimsRequestMap → Result AuthRecord
  unfolding context_user authorize_scopes guest_scopes_supported get_user_claims_for_scopes
  guest_fetch context user_id scopes requested = do
    u ← context_user context
    guard (u.raw == user_id) (failure "GuestIdentityManager: wrong user")
    let asked : Dict Bool = elim scopes [ none ↦ [] | some m ↦ m ]
    let authorized : Dict Bool =
        elim (authorize_scopes o (λ given. guest_scopes_supported im scopes) (some u) asked) [
          | none ↦ []
          | some (granted, refused) ↦ granted
        ]
    claims ← get_user_claims_for_scopes names (some u) authorized requested
    ok (record {
      manager = guest_manager;
      sub = u.subject;
      authorized_scopes = authorized;
      authorized_claims = none;
      claims_by_scope = claims;
      user = some u;
      auth_time = none;
    })
