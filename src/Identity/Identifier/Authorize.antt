-- ===== src/Identity/Identifier/Authorize.antt =====
-- Authorize of identity/managers/identifier.go, with Consent of identifier/models.go.
use lico.Base.{
  String, Bool, true, false, Option, none, some, [], ◌∷◌, ◌==◌, ◌&&◌, ◌||◌, not, if◌then◌else◌,
}
use lico.Base.Dict.{Dict, put, remove, flag, set_of}
use lico.Base.Text.{split, join}
use lico.Errors.{Result, ok, err, panic, ◌>>=◌, ◌>>◌, guard, deref, error_text}
use lico.Oidc.{Oidc}
use lico.Url.{Url}
use lico.Clients.{Details}
use lico.Payload.Claims.{ClaimNames, ClaimsRequest, apply_scopes, scopes}
use lico.Payload.Authentication.{AuthenticationRequest, new_error}
use lico.Identity.{AuthRecord, auth_authorize_scopes, authorize_claims, make_array_from_bool_map}
use lico.Identity.Identifier.{Identifier, scopes_supported}

-- Consent
pub record Consent : Type 0 where
  pub allow : Bool
  pub raw_scope : String

-- The loop of Consent.Scopes: what is requested and given.
unfoldable pub approve_given : Dict Bool → Dict Bool → Dict Bool → Dict Bool
approve_given given [] approved = approved
approve_given given ((n, v) ∷ m) approved =
    approve_given given m (if flag n given && v then put n true approved else approved)

-- The table of all scopes that a consent gives.
abbrev pub given_scopes : Consent → Dict Bool
given_scopes c = if c.raw_scope == "" then [] else set_of (split c.raw_scope)

-- Consent.Scopes
unfoldable pub consent_scopes : Consent → Dict Bool → Dict Bool × Dict Bool
unfolding approve_given
consent_scopes c requested = (approve_given (given_scopes c) requested [], given_scopes c)

-- What the manager has for the request at hand, beside the identifier: the sign-in form, the consent of
-- the consent cookie, the parsed query of the request (url.Values, of type Q), its Set, and the URL with
-- an encoded query.
pub record SignIn (Q : Type 0) : Type 0 where
  pub identifier : Identifier
  pub sign_in_form_uri : String
  pub consent : Result (Option Consent)
  pub query : Result Q
  pub set : String → String → Q → Q
  pub with_query : Q → Url → Url

-- What Authorize returns: the record, beside the request as it leaves it, or IsHandledError after a
-- redirect was written.
pub data Authorized : Type 0 where
  granted : AuthRecord → AuthenticationRequest → Authorized
  sent : Url → Authorized

module _ {Q : Type 0} (o : Oidc) (names : ClaimNames) (s : SignIn Q) where
  -- The derived scope list of the claims request, in the query.
  unfoldable pub add_claims_scope : Option ClaimsRequest → Dict Bool → Q → Q
  add_claims_scope none requested q = q
  add_claims_scope (some claims) requested q = elim (scopes names requested claims) [
    | [] ↦ q
    | scope ∷ rest ↦ s.set "claims_scope" (join (scope ∷ rest)) q
  ]

  -- The requested scopes, in the query.
  unfoldable pub add_scope : Dict Bool → Q → Q
  add_scope [] q = q
  add_scope (entry ∷ m) q = s.set "scope" (join (make_array_from_bool_map (entry ∷ m))) q

  -- The redirect to the consent page.
  unfoldable pub ask_consent : AuthenticationRequest → Result Authorized
  unfolding add_claims_scope add_scope
  ask_consent ar = do
    guard (not (flag o.prompt_none ar.prompts))
        (new_error ar o.interaction_required "consent required")
    q ← s.query
    uri ← deref (s.identifier.urls.parse s.sign_in_form_uri)
    let asked : Q = add_claims_scope ar.claims ar.scopes (s.set "flow" "consent" q)
    ok (sent (s.with_query (add_scope ar.scopes asked) uri))

  -- Whether offline access is kept.
  abbrev pub is_offline_allowed : AuthenticationRequest → Details → Bool → Bool
  is_offline_allowed ar details has_consent =
      flag o.response_type_code ar.response_types
      && (details.trusted || flag o.prompt_consent ar.prompts || has_consent)

  -- The offline access validation of the approved scopes.
  unfoldable pub kept_scopes : AuthenticationRequest → Details → Bool → Dict Bool → Dict Bool
  kept_scopes ar details has_consent approved =
      if flag o.scope_offline_access approved && not (is_offline_allowed ar details has_consent)
      then remove o.scope_offline_access approved
      else approved

  -- The record with the approved scopes and the claims of the request.
  unfoldable pub grant_record : AuthenticationRequest → AuthRecord → Dict Bool → AuthRecord
  unfolding auth_authorize_scopes authorize_claims scopes_supported
  grant_record ar auth approved =
      authorize_claims
        (auth_authorize_scopes o (scopes_supported o names s.identifier) auth approved) ar.claims

  -- Without a consent: the approved scopes are the map of the request itself.
  unfoldable pub without_consent : AuthenticationRequest → AuthRecord → Details → Result Authorized
  unfolding ask_consent kept_scopes grant_record
  without_consent ar auth details =
      if details.trusted && not (flag o.prompt_consent ar.prompts)
      then (let kept = kept_scopes ar details false ar.scopes in
          ok (granted (grant_record ar auth kept) (record ar { scopes = kept })))
      else ask_consent ar

  -- The claims of the request, filtered by the scopes of a consent.
  unfoldable pub with_approved_claims : Dict Bool → AuthenticationRequest → AuthenticationRequest
  unfolding apply_scopes
  with_approved_claims all ar = elim ar.claims [
    | none ↦ ar
    | some claims ↦ record ar {
      params = record ar.params { claims = some (apply_scopes names all claims) };
    }
  ]

  unfoldable pub with_consent :
      AuthenticationRequest → AuthRecord → Details → Consent → Result Authorized
  unfolding consent_scopes with_approved_claims kept_scopes grant_record
  with_consent ar auth details c = do
    guard c.allow (new_error ar o.access_denied "consent denied")
    let filtered : AuthenticationRequest = with_approved_claims (consent_scopes c ar.scopes).1 ar
    ok (
        granted
          (grant_record filtered auth (kept_scopes ar details true (consent_scopes c ar.scopes).0))
          filtered)

  -- The lookup of the client, with its error for the request.
  unfoldable pub client_or_denied : AuthenticationRequest → Result Details → Result Details
  client_or_denied ar (ok details) = ok details
  client_or_denied ar (err e) = err (new_error ar o.access_denied (error_text e))
  client_or_denied ar panic = panic

  -- Authorize
  unfoldable pub identifier_authorize : AuthenticationRequest → AuthRecord → Result Authorized
  unfolding client_or_denied without_consent with_consent
  identifier_authorize ar auth = do
    details ← client_or_denied ar (s.identifier.lookup_client ar.client_id ar.redirect_uri)
    consent ← s.consent
    elim consent [
      | none ↦ without_consent ar auth details
      | some c ↦ with_consent ar auth details c
    ]
