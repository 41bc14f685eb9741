-- ===== src/Tests/UserInfo.antt =====
-- Runs of the user info endpoint and of the claims that it answers with.
use lico.Base.{◌≡◌, refl, true, false, none, some, [], ◌∷◌, ne_of_eq}
use lico.Base.Text.{cut}
use lico.Base.Dict.{Dict, get, put}
use lico.Base.Lists.{contains}
use lico.Errors.{ok}
use lico.Jwt.{Token, text}
use lico.Oidc.{standard}
use lico.Clients.{ClientRegistration}
use lico.Clients.Lookup.{get_client}
use lico.Identity.{ScopeClaims, ProfileClaims, email_claims, profile_claims, get_session_ref}
use lico.Identity.Claims.{
  get_user_claims_for_scopes, authorized_scope_claims, add_requested_maps, add_requested_map,
  add_requested, add_found, add_scoped, add_email, add_profile, add_email_claim, add_profile_claim,
  new_email_claims, new_profile_claims, extra_claims, put_all, claims_of_scope,
}
use lico.Identity.Claims.Email.{
  EmailNames, released_email, requested_names, get_user_claims_for_scopes-released,
}
use lico.Identity.Claims.Profile.{get_user_claims_for_scopes-name}
use lico.Payload.Claims.{ClaimsRequestMap, Value, get_scope_for_claim, scoped_claims}
use lico.TokenClaims.{AccessTokenClaims, ClaimsLib}
use lico.Provider.Managers.{user_from_claims}
use lico.Provider.Tokens.{access_token_claims, public_subject_from_auth}
use lico.Provider.UserInfo.{
  UserInfoEndpoint, Body, json, user_info_handler, respond_user, user_info_response, sign_response,
  extra_claims_of, answer_of,
}
use lico.Provider.UserInfo.Live.{user_info_handler-access_token_claims}
use lico.Provider.UserInfo.Extra.{extra_claims_of-collected}
use lico.Tests.{app, registry, parse_client_id, rs256}
use lico.Tests.Claims.{someone_user, names}
use lico.Tests.Provider.{user}
use lico.Tests.Tokens.{provider, identity, member}

abbrev made_access : Token AccessTokenClaims
made_access = record {
  method = rs256;
  alg = text "RS256";
  kid = text "k";
  claims = access_token_claims provider "app" member;
}

abbrev info : UserInfoEndpoint
info = record {
  tokens = provider;
  parse_access = λ raw key. ok made_access;
  get_signing_method = λ alg. some rs256;
  parse_client_id = parse_client_id;
  registry = registry;
  response_to_map = λ r. ok (("sub", Value.text r.subject) ∷ []);
}

abbrev info_body : Body
info_body = json (("sub", Value.text "u1") ∷ [])

responded :
    respond_user standard info (access_token_claims provider "app" member) user ≡ ok info_body
unfolding respond_user user_info_response public_subject_from_auth get claims_of_scope
    new_profile_claims new_email_claims get_client access_token_claims sign_response put_all
    extra_claims_of
responded = refl

user_info_handler-access_token_claims_example :
    user_info_handler standard info "GET" "Bearer token"
    ≡ answer_of standard info (respond_user standard info made_access.claims user)
unfolding cut user_from_claims get get_session_ref
user_info_handler-access_token_claims_example =
    user_info_handler-access_token_claims standard info "Bearer token" "token" "app" "u1"
      made_access member user (record someone_user { claims = some identity }) identity
      (some "basic:-:u1") refl refl refl refl refl tt refl (ne_of_eq _ _ refl) refl

abbrev valid_claims : ClaimsLib
valid_claims = record { standard_valid = λ c. ok tt; map_valid = λ m. ok tt }

abbrev signing_app : ClientRegistration
signing_app = record app { raw_user_info_signed_response_alg = "RS256" }

-- A claims request for the two claims of a user that are not authorized by their scopes.
abbrev asked_claims : ClaimsRequestMap
asked_claims = ("email_verified", none) ∷ ("family_name", none) ∷ []

abbrev released : Dict ScopeClaims
released =
    ("email", email_claims (record { email = ""; email_verified = true }))
    ∷ (
      "profile",
      profile_claims
          (record { name = "One"; family_name = ""; given_name = ""; preferred_username = "" }),
    )
    ∷ []

collected :
    get_user_claims_for_scopes names (some someone_user) [] (asked_claims ∷ []) ≡ ok released
unfolding get_user_claims_for_scopes authorized_scope_claims get add_requested_maps
    add_requested_map add_requested add_found get_scope_for_claim scoped_claims add_scoped add_email
    add_profile new_email_claims new_profile_claims add_email_claim add_profile_claim put
    extra_claims
collected = refl

email_names : EmailNames names
unfolding get_scope_for_claim scoped_claims get
email_names = record {
  scopes_differ = ne_of_eq _ _ refl;
  named = ne_of_eq _ _ refl;
  email_scope = refl;
  verified_scope = refl;
}

get_user_claims_for_scopes-released_example :
    get "email" released
    ≡ released_email someone_user.email false
        (contains "email" (requested_names (asked_claims ∷ [])))
        (contains "email_verified" (requested_names (asked_claims ∷ [])))
unfolding get
get_user_claims_for_scopes-released_example =
    get_user_claims_for_scopes-released names email_names someone_user [] (asked_claims ∷ [])
      released collected

abbrev one_name : ProfileClaims
one_name = record { name = "One"; family_name = ""; given_name = ""; preferred_username = "" }

get_user_claims_for_scopes-name_example :
    (one_name.family_name ≡ "") × (one_name.given_name ≡ "") × (one_name.preferred_username ≡ "")
unfolding get
get_user_claims_for_scopes-name_example =
    get_user_claims_for_scopes-name names (ne_of_eq _ _ refl) someone_user [] (asked_claims ∷ [])
      released one_name (ne_of_eq _ _ refl) refl collected refl

extra_claims_of-collected_example :
    extra_claims_of (record user { claims_by_scope = released }) ≡ []
extra_claims_of-collected_example =
    extra_claims_of-collected names (some someone_user) [] (asked_claims ∷ [])
      (record user { claims_by_scope = released }) (ne_of_eq _ _ refl) (ne_of_eq _ _ refl) collected
