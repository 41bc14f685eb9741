-- ===== src/Tests/Claims.antt =====
-- Runs of the claims filter, of scope lists, and of authorization by a manager.
use lico.Base.{String, ◌≡◌, refl, Bool, true, none, some, [], ◌∷◌}
use lico.Base.Dict.{Dict, get}
use lico.Oidc.{standard}
use lico.Code.{CodeManager, create, empty_manager}
use lico.Identity.{AuthRecord, User, identity_manager, auth_authorize_scopes}
use lico.Identity.Authorize.{authorized_after, auth_authorize_scopes_lem}
use lico.Payload.Claims.{ClaimNames, ClaimsRequest}

abbrev pub names : ClaimNames
names = record {
  name_claim = "name";
  family_name_claim = "family_name";
  given_name_claim = "given_name";
  middle_name_claim = "middle_name";
  preferred_username_claim = "preferred_username";
  profile_claim = "profile";
  picture_claim = "picture";
  website_claim = "website";
  gender_claim = "gender";
  birthdate_claim = "birthdate";
  zoneinfo_claim = "zoneinfo";
  updated_at_claim = "updated_at";
  email_claim = "email";
  email_verified_claim = "email_verified";
  scope_profile = "profile";
  scope_email = "email";
}

abbrev two_claims : ClaimsRequest
two_claims = record {
  user_info = some (("name", none) ∷ ("email", none) ∷ []);
  id_token = none;
  passthru = none;
}

abbrev email_only : Dict Bool
email_only = ("email", true) ∷ []

abbrev pub someone_user : User
someone_user = record {
  subject = "u1";
  raw = "uid=u1";
  email = some (record { email = "u1@example.org"; email_verified = true });
  profile = some (record { name = "U One"; family_name = "One"; given_name = "U" });
  username = some "uone";
  id = some 7;
  unique_id = some "uuid-1";
  claims = none;
  scoped_claims = none;
  session_ref = none;
}

abbrev someone : AuthRecord
someone = record {
  manager = identity_manager;
  sub = "u1";
  authorized_scopes = ("groups", true) ∷ [];
  authorized_claims = none;
  claims_by_scope = [];
  user = some someone_user;
  auth_time = none;
}

abbrev asked : Dict Bool
asked = ("openid", true) ∷ ("groups", true) ∷ []

auth_authorize_scopes_lem_example :
    get "groups"
      (auth_authorize_scopes standard (λ scopes. "profile" ∷ []) someone asked).authorized_scopes
    ≡ authorized_after standard
        ("profile" ∷ [])
        "groups"
        someone.user
        (get "groups" asked)
        (get "groups" someone.authorized_scopes)
unfolding get
auth_authorize_scopes_lem_example =
    auth_authorize_scopes_lem standard (λ scopes. "profile" ∷ []) someone asked (refl, (refl, tt))
      "groups"

abbrev old_codes : CodeManager String
old_codes = create "new" 200 "r2" (create "old" 5 "r1" empty_manager)
