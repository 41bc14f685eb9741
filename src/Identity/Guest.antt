-- ===== src/Identity/Guest.antt =====
-- identity/managers/guest.go: guest users and the manager that takes them from signed request objects.
pub mod Roundtrip
pub mod Signed
pub mod Authorize
pub mod Approved
use lico.Base.{
  ℕ, String, Bool, true, false, Option, none, some, List, [], ◌∷◌, ◌++◌, ◌==◌, ◌||◌, ◌&&◌, not,
  is_some, if◌then◌else◌,
}
use lico.Base.Dict.{Dict, get, put, remove, has, flag, keys, mark, set_of}
use lico.Errors.{
  GoError, error_text, failure, Result, ok, err, panic, ◌>>=◌, ◌>>◌, guard, or_error, deref,
}
use lico.Jwt.{Token, is_unsigned}
use lico.Oidc.{Oidc}
use lico.Url.{Url}
use lico.Clients.{Details, Secured}
use lico.Payload.Claims.{
  ClaimNames, ClaimsRequest, ClaimsRequestMap, ClaimsRequestValue, Value, Fields, null, text,
  boolean, object, other, end, field, map_of, get_string_value,
}
use lico.Payload.Authentication.{
  AuthenticationRequest, RequestObjectClaims, new_error, new_bad_request,
}
use lico.Payload.Validation.{verify_user}
use lico.Identity.{
  AuthRecord, User, guest_manager, make_array_from_bool_map, auth_authorize_scopes,
  authorize_claims, authorize_scopes,
}
use lico.Identity.Claims.{get_user_claims_for_scopes}
use lico.TokenClaims.{
  identified_user_is_guest, identified_user_id_claim, identified_data, scope_guest_ok,
}

abbrev pub guest_manager_name : String
guest_manager_name = "guest"

-- guestUser
pub record GuestUser : Type 0 where
  pub raw : String
  pub email : String
  pub email_verified : Bool
  pub name : String
  pub family_name : String
  pub given_name : String

-- v, _ := value.(string)
abbrev text_of : Value → String
text_of (text s) = s
text_of null = ""
text_of (boolean b) = ""
text_of (object m) = ""
text_of (other s) = ""

-- v, _ := value.(int); v == 1: no value that encoding/json decodes is an int, since it makes every number a
-- float64
abbrev is_int_one : Value → Bool
is_int_one v = false

-- The switch of the loop over the data claim.
unfoldable pub set_data : String → Value → GuestUser → GuestUser
set_data name value u =
    if name == "e"
    then record u { email = text_of value }
    else if name == "ev"
    then (if is_int_one value then record u { email_verified = true } else u)
    else if name == "n"
    then record u { name = text_of value }
    else if name == "nf"
    then record u { family_name = text_of value }
    else if name == "ng"
    then record u { given_name = text_of value }
    else u

unfoldable pub set_all_data : Fields → GuestUser → GuestUser
unfolding set_data
set_all_data end u = u
set_all_data (field name value rest) u = set_all_data rest (set_data name value u)

abbrev is_true : Option Value → Bool
is_true (some (boolean true)) = true
is_true _ = false

-- claim.(string): a panic for another type
unfoldable pub text_or_panic : Value → Result String
text_or_panic (text s) = ok s
text_or_panic null = panic
text_or_panic (boolean b) = panic
text_or_panic (object m) = panic
text_or_panic (other s) = panic

-- data, _ := claim.(map[string]interface{})
abbrev fields_of : Value → Fields
fields_of (object m) = m
fields_of (text s) = end
fields_of null = end
fields_of (boolean b) = end
fields_of (other s) = end

-- The user of the two claims, if both are there.
unfoldable pub guest_of : Option Value → Option Value → Result (Option GuestUser)
unfolding text_or_panic set_all_data
guest_of none given = ok none
guest_of (some id) none = ok none
guest_of (some id) (some given) = do
  raw ← text_or_panic id
  ok (
      some (
        set_all_data (fields_of given) (record {
          raw = raw;
          email = "";
          email_verified = false;
          name = "";
          family_name = "";
          given_name = "";
        })))

-- newGuestUserFromClaims, from decoded claims
unfoldable pub new_guest_user_from_claims : Dict Value → Result (Option GuestUser)
unfolding guest_of
new_guest_user_from_claims claims =
    if is_true (get identified_user_is_guest claims)
    then guest_of (get identified_user_id_claim claims) (get identified_data claims)
    else ok none

-- A text field with omitempty.
abbrev text_field : String → String → Fields → Fields
text_field name s rest = if s == "" then rest else field name (text s) rest

-- (*guestUser).Claims, as JSON encodes and decodes them; minimalGuestUserData leaves out empty fields
unfoldable pub guest_claims : GuestUser → Dict Value
guest_claims u =
    (identified_user_id_claim, text u.raw)
    ∷ (identified_user_is_guest, boolean true)
    ∷ (
      identified_data,
      object (
          text_field "e" u.email (
            let rest : Fields =
              text_field "n" u.name
                (text_field "nf" u.family_name (text_field "ng" u.given_name end)) in
            if u.email_verified then field "ev" (other "1") rest else rest)),
    )
    ∷ []

-- What the manager uses: its scopes, the hash of a subject (getPublicSubject), clients.Registry.Lookup
-- without a secret and an origin, and whether the trusted scopes of a client are nil, which the list does
-- not tell from an empty one.
pub record GuestManager : Type 0 where
  pub scopes_supported : List String
  pub get_public_subject : String → String → String
  pub lookup_client : String → Option Url → Result Details
  pub has_no_trusted_scopes : Secured → Bool

module _ (im : GuestManager) where
  -- A guest as a user; its claims as they are decoded again.
  unfoldable pub guest_user : GuestUser → User
  unfolding guest_claims
  guest_user u = record {
    subject = im.get_public_subject u.raw guest_manager_name;
    raw = u.raw;
    email = some (record { email = u.email; email_verified = u.email_verified });
    profile =
        some (record { name = u.name; family_name = u.family_name; given_name = u.given_name });
    username = none;
    id = none;
    unique_id = none;
    claims = some (guest_claims u);
    scoped_claims = none;
    session_ref = none;
  }

  -- ScopesSupported; none is nil
  unfoldable pub guest_scopes_supported : Option (Dict Bool) → List String
  unfolding make_array_from_bool_map
  guest_scopes_supported none = im.scopes_supported
  guest_scopes_supported (some scopes) = make_array_from_bool_map scopes

-- v, _ := claims.GetStringValue(name): a panic where the entry is nil
abbrev pub string_value : ClaimsRequestMap → String → Result (Option String)
string_value m name = deref (get_string_value m name)

abbrev pub or_empty : Option String → String
or_empty none = ""
or_empty (some s) = s

-- emailVerified, _ = raw.Value.(bool): a panic where the entry is nil
unfoldable pub bool_value : Option (Option ClaimsRequestValue) → Result Bool
bool_value none = ok false
bool_value (some none) = panic
bool_value (some (some entry)) = ok (is_true (some entry.value))

module _ (o : Oidc) (im : GuestManager) where
  -- The guest of the ID token's claims request.
  unfoldable pub guest_from_request : ClaimsRequestMap → String → Result GuestUser
  unfolding bool_value
  guest_from_request m sub = do
    email ← string_value m o.email_claim
    verified ← bool_value (get o.email_verified_claim m)
    name ← string_value m o.name_claim
    family_name ← string_value m o.family_name_claim
    given_name ← string_value m o.given_name_claim
    ok (record {
      raw = sub;
      email = or_empty email;
      email_verified = verified;
      name = or_empty name;
      family_name = or_empty family_name;
      given_name = or_empty given_name;
    })

  -- NewAuthRecord and SetUser for a guest.
  unfoldable pub guest_record : GuestUser → AuthRecord
  unfolding guest_user
  guest_record u = record {
    manager = guest_manager;
    sub = (guest_user im u).subject;
    authorized_scopes = [];
    authorized_claims = none;
    claims_by_scope = [];
    user = some (guest_user im u);
    auth_time = none;
  }

  -- The request object and the claims request for the ID token.
  unfoldable pub guest_claims_request :
      AuthenticationRequest → Result (Token RequestObjectClaims × ClaimsRequestMap)
  guest_claims_request ar = do
    request ←
        or_error (new_error ar o.invalid_request_object "GuestIdentityManager: no request object")
          ar.request
    roc_claims ←
        or_error (new_error ar o.invalid_request "GuestIdentityManager: missing claims request")
          request.claims.claims
    claims ←
        or_error (new_error ar o.invalid_request "GuestIdentityManager: missing claims request")
          ar.claims
    m ←
        or_error
          (new_error ar o.invalid_request
            "GuestIdentityManager: missing claims request for id_token")
          claims.id_token
    ok (request, m)

  -- The raw subject of the guest.
  unfoldable pub guest_subject :
      AuthenticationRequest → Token RequestObjectClaims → ClaimsRequestMap → Result String
  guest_subject ar request m = do
    wanted ← string_value m "guest"
    guest ←
        or_error
          (new_error ar o.invalid_request
            "GuestIdentityManager: missing claim guest in id_token claims request")
          wanted
    guard (not (is_unsigned request.method)) (
        new_bad_request ar o.invalid_request_object
          "GuestIdentityManager: request object must be signed")
    guard (not (guest == "")) (
        new_bad_request ar o.invalid_request
          "GuestIdentityManager: invalid claim guest in id_token claims request")
    ok guest

  -- Authenticate
  unfoldable pub guest_authenticate : AuthenticationRequest → Result AuthRecord
  unfolding guest_claims_request guest_subject guest_from_request guest_record verify_user
  guest_authenticate ar = do
    guard (flag scope_guest_ok ar.scopes)
        (new_error ar o.login_required "GuestIdentityManager: required scope missing")
    (request, m) ← guest_claims_request ar
    guest ← guest_subject ar request m
    u ← guest_from_request m guest
    verify_user o (guest_user im u).subject ar
    ok (guest_record u)

  -- EndSession, with what the callbacks return
  unfoldable pub guest_end_session : List (Result (Unit {0})) → Result (Unit {0})
  guest_end_session [] = ok tt
  guest_end_session (callback ∷ callbacks) = do callback; guest_end_session callbacks
