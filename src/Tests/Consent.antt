-- ===== src/Tests/Consent.antt =====
-- Runs of Authenticate and Authorize of the identifier manager.
use lico.Base.{String, ◌≡◌, ◌⊎◌, refl, true, none, some, [], ◌∷◌}
use lico.Base.Dict.{flag, put, get, remove, keys, mark, remove_all}
use lico.Base.Text.{split}
use lico.Errors.{ok}
use lico.Oidc.{standard}
use lico.Clients.{Details}
use lico.Identity.{
  AuthRecord, User, auth_authorize_scopes, authorize_scopes, authorize_loop, is_authorized,
  is_known_scope, apply_authorized, grant_scopes, authorize_claims,
}
use lico.Identity.Claims.{
  get_user_claims_for_scopes, authorized_scope_claims, add_requested_maps, extra_claims,
}
use lico.Identity.Identifier.{scopes_supported, fetch, fetched_user, fetched_record}
use lico.Identity.Identifier.Authenticate.{
  Logon, identifier_authenticate, signed_in, inject_required, required_scopes, require_scopes,
  require_scope, trim_bangs, expand_scopes, updated_scopes, refreshed,
}
use lico.Identity.Identifier.SignedIn.{IsTaken, IsSignedIn, identifier_authenticate-IsSignedIn}
use lico.Payload.Validation.{verify_user}
use lico.Identity.Identifier.Authorize.{
  Consent, SignIn, granted, identifier_authorize, client_or_denied, with_consent, consent_scopes,
  approve_given, with_approved_claims, kept_scopes, grant_record,
}
use lico.Identity.Identifier.Consented.{IsConsented, identifier_authorize-IsConsented}
use lico.Payload.Authentication.{AuthenticationRequest}
use lico.Provider.Grants.{fake_request}
use lico.Tests.Claims.{names}
use lico.Tests.EndSession.{identifier}
use lico.Tests.Provider.{user, app_details}

abbrev person : User
person = record {
  subject = "u1";
  raw = "1";
  email = none;
  profile = none;
  username = none;
  id = none;
  unique_id = none;
  claims = none;
  scoped_claims = none;
  session_ref = none;
}

abbrev signed_in_person : AuthRecord
signed_in_person = record user { authorized_scopes = []; user = some person }

abbrev offline_consent : Consent
offline_consent = record { allow = true; raw_scope = "openid offline_access" }

-- An untrusted client, and a consent.
abbrev sign_in : SignIn String
sign_in = record {
  identifier = record identifier {
    scopes_supported = "offline_access" ∷ [];
    lookup_client = λ id uri. ok app_details;
  };
  sign_in_form_uri = "https://op.example.org/signin";
  consent = ok (some offline_consent);
  query = ok "";
  set = λ key value q. q;
  with_query = λ q uri. uri;
}

abbrev offline_request : AuthenticationRequest
offline_request = record (fake_request "app") {
  scopes = ("openid", true) ∷ ("offline_access", true) ∷ ("email", true) ∷ [];
  response_types = ("code", true) ∷ [];
}

abbrev consented : AuthRecord
consented = record signed_in_person {
  authorized_scopes = ("openid", true) ∷ ("offline_access", true) ∷ [];
}

consented_run :
    identifier_authorize standard names sign_in offline_request signed_in_person
    ≡ ok (granted consented offline_request)
unfolding identifier_authorize client_or_denied with_consent consent_scopes approve_given
    with_approved_claims kept_scopes grant_record scopes_supported split get put remove mark keys
    fake_request auth_authorize_scopes authorize_scopes authorize_loop is_authorized is_known_scope
    apply_authorized grant_scopes authorize_claims remove_all
consented_run = refl

identifier_authorize-IsConsented_example :
    (details : Details) × (sign_in.identifier.lookup_client offline_request.client_id
        offline_request.redirect_uri
      ≡ ok details)
    × (flag "offline_access" offline_request.scopes ≡ true)
    × IsConsented standard names sign_in offline_request details "offline_access"
unfolding get
identifier_authorize-IsConsented_example =
    identifier_authorize-IsConsented standard names sign_in offline_request offline_request
      signed_in_person consented "offline_access" (refl, (refl, (refl, tt))) refl consented_run refl

-- A person is signed in whose scopes the backend names, without email.
abbrev logon : Logon String
logon = record {
  sign_in = record sign_in {
    identifier = record identifier { get_user_from_id = λ id session scopes. ok (some person) };
  };
  form_error = "";
  form_error_description = "";
  mode = "";
  logon_user = λ max_age. some person;
  next = none;
  locked_scopes = λ u. some ("!email" ∷ []);
  user_scopes = λ u. some ("openid" ∷ "email" ∷ []);
  logged_on = λ u. some 7;
}

abbrev authenticated : AuthRecord
authenticated = record signed_in_person { auth_time = some 7 }

abbrev updated_request : AuthenticationRequest
updated_request = record offline_request { scopes = ("openid", true) ∷ [] }

authenticated_run :
    identifier_authenticate standard names logon offline_request
    ≡ ok (granted authenticated updated_request)
unfolding identifier_authenticate signed_in inject_required required_scopes require_scopes
    require_scope trim_bangs expand_scopes updated_scopes refreshed fetch fetched_user
    fetched_record authorize_scopes authorize_loop get_user_claims_for_scopes
    authorized_scope_claims add_requested_maps extra_claims get put fake_request verify_user
authenticated_run = refl

identifier_authenticate-IsSignedIn_example :
    (logon.form_error ≡ "")
    × (((logon.logon_user offline_request.max_age ≡ none)
          × IsTaken standard names logon offline_request authenticated)
        ⊎ ((u : User) × (logon.logon_user offline_request.max_age ≡ some u)
            × IsSignedIn standard names logon offline_request updated_request authenticated u
                "email"))
identifier_authenticate-IsSignedIn_example =
    identifier_authenticate-IsSignedIn standard names logon offline_request updated_request
      authenticated "email" authenticated_run
