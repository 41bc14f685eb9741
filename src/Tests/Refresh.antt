-- ===== src/Tests/Refresh.antt =====
-- Runs of the token endpoint with a refresh token.
use lico.Base.{◌⊎◌, String, ◌≡◌, refl, Bool, true, Option, none, some, [], ◌∷◌, ne_of_eq}
use lico.Base.Dict.{Dict, mark, get, put, flag}
use lico.Base.Text.{split, cut}
use lico.Errors.{ok}
use lico.Oidc.{standard}
use lico.Identity.{
  AuthRecord, ManagerRef, identity_manager, auth_authorize_scopes, authorize_claims,
  apply_authorized, authorize_scopes,
}
use lico.Payload.Authentication.{parts_of}
use lico.Payload.Token.{
  TokenParams, TokenRequest, decode_token_request, new_token_request, header_credentials,
  merge_credentials, validate_token_request,
}
use lico.Clients.Lookup.{
  lookup, lookup_named, find_registration, finish_lookup, is_implicitly_trusted,
}
use lico.Clients.Registry.{
  validate, check_origin, check_redirect, check_secret, redirect_loop, redirect_round,
}
use lico.Clients.{validate_secret}
use lico.Provider.Managers.{user_from_claims, manager_from_claims, get_identity_manager}
use lico.Provider.Grants.{
  Grant, fake_request, refresh_user, refreshed_grant, authorized_of, requested_scopes,
}
use lico.Provider.TokenEndpoint.{success, no_tokens, read_token_request, token_handler}
use lico.Provider.TokenEndpoint.Tokens.{token_handler_unapproved}
use lico.Provider.Grants.Refresh.{IsAskedFor, IsMap, is_approved, refresh_user_sound}
use lico.Tests.{callback_url, standard_laws}
use lico.Tests.Provider.{
  user, managers, endpoint, code_params, parsed_token, refresh_claims_of, app_details, codes,
}

-- A refresh that asks for more than the token approves.
abbrev refresh_params : String → TokenParams
refresh_params scope = record code_params {
  grant_type = "refresh_token";
  raw_refresh_token = "r";
  raw_scope = scope;
}

abbrev refresh_request : String → TokenRequest
refresh_request scope = record {
  params = refresh_params scope;
  redirect_uri = some callback_url;
  refresh_token = some parsed_token;
  scopes = (scope, true) ∷ [];
}

refresh_request_read :
    read_token_request standard endpoint "POST" (ok (refresh_params "profile")) ""
    ≡ ok (refresh_request "profile", app_details)
unfolding read_token_request decode_token_request new_token_request header_credentials
    merge_credentials validate_token_request parts_of cut split lookup lookup_named
    find_registration finish_lookup is_implicitly_trusted get validate check_origin check_redirect
    check_secret redirect_loop redirect_round validate_secret mark put
refresh_request_read = refl

token_handler_unapproved_example :
    token_handler standard endpoint codes "POST" (ok (refresh_params "profile")) ""
    ≡ (codes, success no_tokens)
unfolding user_from_claims get_identity_manager manager_from_claims get mark put
token_handler_unapproved_example =
    token_handler_unapproved standard endpoint standard_laws codes "POST"
      (ok (refresh_params "profile")) "" (refresh_request "profile") app_details parsed_token
      identity_manager none "profile" refresh_request_read refl refl refl (ne_of_eq _ _ refl) refl
      refl refl refl

abbrev refreshed : Grant
refreshed = record {
  request = fake_request "app";
  auth = user;
  session = none;
  authorized_scopes = ("openid", true) ∷ [];
}

backend_maps :
    (manager : ManagerRef) (backend : Option (Dict Bool))
    → managers.approved_scopes manager "u1" "app" "" ≡ ok backend
    → IsMap backend
backend_maps manager none h = tt
backend_maps manager (some m) h = cc h

refresh_user_sound_example :
    (manager : ManagerRef) × (backend : Option (Dict Bool)) × (auth : AuthRecord)
    × (manager_from_claims managers "basic" refresh_claims_of.identity_claims ≡ ok manager)
    × (managers.approved_scopes manager "u1" "app" "" ≡ ok backend)
    × (managers.fetch manager "u1" none none [] refreshed.authorized_scopes
        ≡ (some auth, true, none))
    × (refreshed.auth.authorized_claims ≡ refresh_claims_of.approved_claims_request)
    × ((j : String)
        → flag j refreshed.authorized_scopes ≡ true
        → (is_approved backend ("openid" ∷ []) j ≡ true) × IsAskedFor (("openid", true) ∷ []) j)
    × ((j : String)
        → flag j refreshed.auth.authorized_scopes ≡ true
        → ((is_approved backend ("openid" ∷ []) j ≡ true) × IsAskedFor (("openid", true) ∷ []) j)
          ⊎ (flag j auth.authorized_scopes ≡ true))
unfolding refresh_user refreshed_grant authorized_of requested_scopes get_identity_manager
    manager_from_claims get mark put auth_authorize_scopes authorize_claims apply_authorized
    authorize_scopes
refresh_user_sound_example =
    refresh_user_sound standard managers (refresh_request "openid") refresh_claims_of "u1" none
      refreshed backend_maps refl
