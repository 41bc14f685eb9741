-- ===== src/Identity/Claims.antt =====
-- GetUserClaimsForScopes of identity/utils.go, and Claims of identity/authrecord.go.
pub mod Email
pub mod Profile
use lico.Base.{String, Bool, false, Option, none, some, List, [], ◌∷◌, ◌==◌, if◌then◌else◌}
use lico.Base.Dict.{Dict, get, put, flag}
use lico.Errors.{Result, ok, panic, ◌>>=◌}
use lico.Payload.Claims.{
  ClaimNames, ClaimsRequestMap, ClaimsRequestValue, Value, null, get_scope_for_claim,
}
use lico.Identity.{
  EmailClaims, ProfileClaims, ScopeClaims, email_claims, profile_claims, map_claims, User,
  UserProfile, AuthRecord,
}

-- NewEmailClaims: a panic where the claims have another type.
unfoldable pub new_email_claims : Option ScopeClaims → Result (Option EmailClaims)
new_email_claims none = ok none
new_email_claims (some (email_claims e)) = ok (some e)
new_email_claims (some (profile_claims p)) = panic
new_email_claims (some (map_claims m)) = panic

-- NewProfileClaims
unfoldable pub new_profile_claims : Option ScopeClaims → Result (Option ProfileClaims)
new_profile_claims none = ok none
new_profile_claims (some (email_claims e)) = panic
new_profile_claims (some (profile_claims p)) = ok (some p)
new_profile_claims (some (map_claims m)) = panic

abbrev no_email : EmailClaims
no_email = record { email = ""; email_verified = false }

abbrev no_profile : ProfileClaims
no_profile = record { name = ""; family_name = ""; given_name = ""; preferred_username = "" }

-- The claims for each scope, and the claims with a value that no scope has.
pub record Collected : Type 0 where
  pub claims : Dict ScopeClaims
  pub unknown : Dict Value

-- The first profile claims: those of the profile, if the user has one, and the user name.
unfoldable pub profile_of : User → Option ProfileClaims
profile_of u = elim u.profile [
  | none ↦ elim u.username [
    | none ↦ none
    | some username ↦ some (record no_profile { preferred_username = username })
  ]
  | some p ↦ some (record {
    name = p.name;
    family_name = p.family_name;
    given_name = p.given_name;
    preferred_username = elim u.username [ none ↦ "" | some username ↦ username ];
  })
]

-- claims[scope] = v, where there is a v
abbrev pub put_some : String → Option ScopeClaims → Dict ScopeClaims → Dict ScopeClaims
put_some scope none m = m
put_some scope (some v) m = put scope v m

abbrev pub or_no_email : Option EmailClaims → EmailClaims
or_no_email none = no_email
or_no_email (some e) = e

abbrev pub or_no_profile : Option ProfileClaims → ProfileClaims
or_no_profile none = no_profile
or_no_profile (some p) = p

abbrev pub as_email_claims : Option EmailClaims → Option ScopeClaims
as_email_claims none = none
as_email_claims (some e) = some (email_claims e)

abbrev pub as_profile_claims : Option ProfileClaims → Option ScopeClaims
as_profile_claims none = none
as_profile_claims (some p) = some (profile_claims p)

-- unknownRequestedClaimsWithValue[claim] = entry.Value
unfoldable pub add_unknown : String → Option ClaimsRequestValue → Dict Value → Dict Value
add_unknown claim none m = m
add_unknown claim (some entry) m = elim entry.value [ null ↦ m | v ↦ put claim v m ]

module _ (names : ClaimNames) where
  -- The claims of the scopes that are authorized.
  unfoldable pub authorized_scope_claims : User → Dict Bool → Dict ScopeClaims
  unfolding profile_of
  authorized_scope_claims u scopes =
      let with_email : Dict ScopeClaims =
        put_some names.scope_email
          (if flag names.scope_email scopes then as_email_claims u.email else none) [] in
      put_some names.scope_profile
        (if flag names.scope_profile scopes then as_profile_claims (profile_of u) else none)
        with_email

  -- The switch on the requested claim of the scope email, which falls through.
  unfoldable pub add_email_claim : String → EmailClaims → EmailClaims → EmailClaims
  add_email_claim claim mine e =
      if claim == names.email_claim
      then mine
      else if claim == names.email_verified_claim
      then record e { email_verified = mine.email_verified }
      else e

  -- The switch on the requested claim of the scope profile.
  unfoldable pub add_profile_claim : String → UserProfile → ProfileClaims → ProfileClaims
  add_profile_claim claim mine p =
      if claim == names.name_claim
      then record p { name = mine.name }
      else if claim == names.family_name_claim
      then record p { name = mine.family_name }
      else if claim == names.given_name_claim
      then record p { name = mine.given_name }
      else p

  unfoldable pub add_email : User → String → Dict ScopeClaims → Result (Dict ScopeClaims)
  unfolding new_email_claims add_email_claim
  add_email u claim claims = elim u.email [
    | none ↦ ok claims
    | some mine ↦ do
      there ← new_email_claims (get names.scope_email claims)
      ok (
          put names.scope_email (email_claims (add_email_claim claim mine (or_no_email there)))
            claims)
  ]

  unfoldable pub add_profile : User → String → Dict ScopeClaims → Result (Dict ScopeClaims)
  unfolding new_profile_claims add_profile_claim
  add_profile u claim claims = elim u.profile [
    | none ↦ ok claims
    | some mine ↦ do
      there ← new_profile_claims (get names.scope_profile claims)
      ok (
          put names.scope_profile
            (profile_claims (add_profile_claim claim mine (or_no_profile there))) claims)
  ]

  -- A requested claim of a known scope.
  unfoldable pub add_scoped :
      User → Dict Bool → String → String → Dict ScopeClaims → Result (Dict ScopeClaims)
  unfolding add_email add_profile
  add_scoped u scopes scope claim claims =
      if flag scope scopes
      then ok claims
      else if scope == names.scope_email
      then add_email u claim claims
      else if scope == names.scope_profile
      then add_profile u claim claims
      else ok claims

  -- One round of the loop over the requested claims, with the claim's scope, if it has one.
  unfoldable pub add_found :
      User
      → Dict Bool
      → String
      → Option ClaimsRequestValue
      → Collected
      → Option String
      → Result Collected
  unfolding add_scoped add_unknown
  add_found u scopes claim entry c none =
      ok (record c { unknown = add_unknown claim entry c.unknown })
  add_found u scopes claim entry c (some scope) = do
    claims ← add_scoped u scopes scope claim c.claims
    ok (record c { claims = claims })

  unfoldable pub add_requested :
      User → Dict Bool → String × Option ClaimsRequestValue → Collected → Result Collected
  unfolding get_scope_for_claim add_found
  add_requested u scopes (claim, entry) c =
      add_found u scopes claim entry c (get_scope_for_claim names claim)

  unfoldable pub add_requested_map :
      User → Dict Bool → ClaimsRequestMap → Collected → Result Collected
  unfolding add_requested
  add_requested_map u scopes [] c = ok c
  add_requested_map u scopes (request ∷ requests) c = do
    c1 ← add_requested u scopes request c
    add_requested_map u scopes requests c1

  unfoldable pub add_requested_maps :
      User → Dict Bool → List ClaimsRequestMap → Collected → Result Collected
  unfolding add_requested_map
  add_requested_maps u scopes [] c = ok c
  add_requested_maps u scopes (m ∷ ms) c = do
    c1 ← add_requested_map u scopes m c
    add_requested_maps u scopes ms c1

-- The values of one map put into another.
unfoldable pub put_all : Dict Value → Dict Value → Dict Value
put_all [] m = m
put_all ((claim, value) ∷ values) m = put_all values (put claim value m)

abbrev pub own_scoped_claims : User → Dict Bool → Option (Dict Value)
own_scoped_claims u scopes = elim u.scoped_claims [ none ↦ none | some own ↦ own scopes ]

-- The extra claims: those of the user's own scopes and the requested values; none at all is nil.
unfoldable pub extra_claims : Option (Dict Value) → Dict Value → Option (Dict Value)
unfolding put_all
extra_claims own [] = own
extra_claims none (v ∷ unknown) = some (put_all (v ∷ unknown) [])
extra_claims (some m) (v ∷ unknown) = some (put_all (v ∷ unknown) m)

abbrev pub with_extra : Option (Dict Value) → Dict ScopeClaims → Dict ScopeClaims
with_extra none claims = claims
with_extra (some m) claims = put "" (map_claims m) claims

module _ (names : ClaimNames) where
  -- GetUserClaimsForScopes
  unfoldable pub get_user_claims_for_scopes :
      Option User → Dict Bool → List ClaimsRequestMap → Result (Dict ScopeClaims)
  unfolding authorized_scope_claims add_requested_maps extra_claims
  get_user_claims_for_scopes none scopes requested = ok []
  get_user_claims_for_scopes (some u) scopes requested = do
    c ←
        add_requested_maps names u scopes requested
          (record { claims = authorized_scope_claims names u scopes; unknown = [] })
    ok (with_extra (extra_claims (own_scoped_claims u scopes) c.unknown) c.claims)

-- (*authRecord).Claims at one scope; nil is none
unfoldable pub claims_of_scope : AuthRecord → String → Option ScopeClaims
claims_of_scope r scope = get scope r.claims_by_scope
