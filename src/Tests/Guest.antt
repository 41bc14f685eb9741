-- ===== src/Tests/Guest.antt =====
-- Runs of the guest manager.
use lico.Base.{◌≡◌, refl, true, false, none, some, [], ◌∷◌}
use lico.Base.Dict.{get, put, remove, flag, mark, keys, remove_all}
use lico.Errors.{ok}
use lico.Oidc.{standard}
use lico.Jwt.{Token}
use lico.Clients.{Details, Secured}
use lico.Identity.{
  AuthRecord, auth_authorize_scopes, authorize_scopes, authorize_loop, apply_authorized,
  grant_scopes, is_authorized, is_known_scope, authorize_claims, make_array_from_bool_map,
}
use lico.Identity.Guest.{
  GuestManager, GuestUser, guest_user, guest_record, guest_scopes_supported,
  new_guest_user_from_claims, guest_claims,
}
use lico.Identity.Guest.Roundtrip.{new_guest_user_from_claims-guest_claims}
use lico.Identity.Guest.Authorize.{
  guest_authorize, without_offline, authorize_client, access_of, approve_guest_scopes, approved_for,
  approve_listed, approve_supported,
}
use lico.Identity.Guest.Approved.{IsApproved, guest_authorize-IsApproved}
use lico.Payload.Claims.{ClaimsRequest, ClaimsRequestMap, ClaimsRequestValue, Value}
use lico.Payload.Authentication.{AuthenticationRequest, RequestObjectClaims}
use lico.Provider.Grants.{fake_request}
use lico.Tests.Authorize.{object, secured_claims, secured_app}
use lico.Tests.Provider.{app_details}

abbrev guests : GuestManager
guests = record {
  scopes_supported = "profile" ∷ [];
  get_public_subject = λ raw name. raw;
  lookup_client = λ id uri. ok app_details;
  has_no_trusted_scopes = λ client. false;
}

-- The value of the claim guest.
abbrev guest_value : ClaimsRequestValue
guest_value = record { essential = true; value = Value.text "visitor"; values = [] }

abbrev guest_map : ClaimsRequestMap
guest_map = ("guest", some guest_value) ∷ []

abbrev guest_claims_of_request : ClaimsRequest
guest_claims_of_request = record { user_info = none; id_token = some guest_map; passthru = none }

abbrev signed_object : Token RequestObjectClaims
signed_object = record object {
  claims = record secured_claims {
    claims = some guest_claims_of_request;
    client = some (record secured_app { trusted_scopes = "LibreGraph.GuestOK" ∷ [] });
  };
}

abbrev guest_request : AuthenticationRequest
guest_request = record (fake_request "app") {
  params = record (fake_request "app").params { claims = some guest_claims_of_request };
  scopes = ("openid", true) ∷ ("LibreGraph.GuestOK", true) ∷ ("offline_access", true) ∷ [];
  request = some signed_object;
}

abbrev visitor : GuestUser
visitor = record {
  raw = "visitor";
  email = "";
  email_verified = false;
  name = "";
  family_name = "";
  given_name = "";
}

abbrev visitor_record : AuthRecord
visitor_record = guest_record standard guests visitor

abbrev left_request : AuthenticationRequest
left_request = record guest_request {
  scopes = ("openid", true) ∷ ("LibreGraph.GuestOK", true) ∷ [];
}

abbrev granted_record : AuthRecord
granted_record = record visitor_record {
  authorized_scopes = ("LibreGraph.GuestOK", true) ∷ ("openid", true) ∷ [];
  authorized_claims = some guest_claims_of_request;
}

guest_granted :
    guest_authorize standard guests guest_request visitor_record ≡ ok (granted_record, left_request)
unfolding guest_authorize without_offline authorize_client access_of approve_guest_scopes
    approved_for approve_listed approve_supported guest_scopes_supported make_array_from_bool_map
    get put remove mark keys fake_request guest_record guest_user auth_authorize_scopes
    authorize_scopes authorize_loop is_authorized is_known_scope apply_authorized grant_scopes
    authorize_claims remove_all
guest_granted = refl

guest_authorize-IsApproved_example :
    (request : Token RequestObjectClaims) × (secured : Secured) × (details : Details)
    × (left_request.request ≡ some request)
    × (request.claims.client ≡ some secured)
    × (guests.lookup_client left_request.client_id left_request.redirect_uri ≡ ok details)
    × (details.id ≡ secured.id)
    × (flag "offline_access" left_request.scopes ≡ false)
    × IsApproved standard guests left_request.scopes details secured "LibreGraph.GuestOK"
unfolding get guest_record
guest_authorize-IsApproved_example =
    guest_authorize-IsApproved standard guests guest_request left_request visitor_record
      granted_record "LibreGraph.GuestOK" (refl, (refl, (refl, tt))) refl guest_granted refl

abbrev verified_visitor : GuestUser
verified_visitor = record visitor { email = "v@example.org"; email_verified = true }

new_guest_user_from_claims-guest_claims_example :
    new_guest_user_from_claims (guest_claims verified_visitor)
    ≡ ok (some (record verified_visitor { email_verified = false }))
new_guest_user_from_claims-guest_claims_example =
    new_guest_user_from_claims-guest_claims verified_visitor
