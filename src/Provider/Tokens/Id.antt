-- ===== src/Provider/Tokens/Id.antt =====
-- makeIDToken of oidc/provider/tokens.go.
use lico.Base.{
  ℕ, String, Bool, true, false, Option, none, some, List, [], ◌∷◌, ◌==◌, ◌||◌, ◌&&◌, not, ltb,
  is_some, if◌then◌else◌,
}
use lico.Base.Dict.{Dict, get, flag, has}
use lico.Errors.{GoError, failure, Result, ok, err, panic, ◌>>=◌, or_error}
use lico.Jwt.{SigningMethod}
use lico.Oidc.{Oidc}
use lico.Payload.Claims.{ClaimNames, ClaimsRequestMap, Value, text, scopes_map}
use lico.Payload.Authentication.{AuthenticationRequest, Session}
use lico.Identity.{AuthRecord, User, EmailClaims, ProfileClaims, ScopeClaims}
use lico.Identity.Claims.{claims_of_scope, new_email_claims, new_profile_claims, put_all}
use lico.Provider.Keys.{SigningKey}
use lico.TokenClaims.{
  identified_user_id_claim, internal_extra_access_token_claims_claim,
  internal_extra_id_token_claims_claim,
}
use lico.Provider.Tokens.{
  TokenProvider, IdTokenFields, mapped_claims, require_signing_key, standard_claims,
  public_subject_from_auth, extra_of,
}

-- authorizedClaimsRequest.IDToken, if there is one
abbrev pub id_token_request : AuthRecord → Option ClaimsRequestMap
id_token_request auth = elim auth.authorized_claims [
  | none ↦ none
  | some request ↦ request.id_token
]

-- The user id of the identity claims: a panic where it is not a text, an error where it is missing.
unfoldable pub user_id_of : Option (Dict Value) → Result String
user_id_of none = err (failure "no id claim in user identity claims")
user_id_of (some claims) = elim (get identified_user_id_claim claims) [
  | none ↦ err (failure "no id claim in user identity claims")
  | some (text id) ↦ if id == "" then err (failure "no id claim in user identity claims") else ok id
  | some _ ↦ panic
]

abbrev session_ref_of : User → Option String
session_ref_of u = elim u.session_ref [ none ↦ none | some ref ↦ ref ]

-- What Fetch found: the record, which may be nil, or an error.
unfoldable pub found_of : Option AuthRecord × Bool × Option GoError → Result (Option AuthRecord)
found_of (auth, true, none) = ok auth
found_of (auth, true, some e) = err (failure "user not found")
found_of (auth, false, e) = err (failure "user not found")

-- The claims of a scope of the fetched record, where they are wanted; a nil record panics.
unfoldable pub fetched_claims :
    {A : Type 0}
    → (Option ScopeClaims → Result (Option A))
    → Bool
    → String
    → Option AuthRecord
    → Result (Option A)
fetched_claims new_claims false scope auth = ok none
fetched_claims new_claims true scope none = panic
fetched_claims new_claims true scope (some auth) = new_claims (claims_of_scope auth scope)

-- The record that the rest of the function uses, and the claims of the scopes.
pub record Fetched : Type 0 where
  pub auth : Option AuthRecord
  pub profile : Option ProfileClaims
  pub email : Option EmailClaims

abbrev requested_scopes_of : ClaimNames → Option ClaimsRequestMap → Dict Bool
requested_scopes_of names none = []
requested_scopes_of names (some m) = scopes_map names [] m

abbrev maps_of : Option ClaimsRequestMap → List ClaimsRequestMap
maps_of none = []
maps_of (some m) = m ∷ []

-- Whether the claims of a scope are wanted.
abbrev pub is_wanted :
    ClaimNames → AuthenticationRequest → Bool → Option ClaimsRequestMap → String → Bool
is_wanted names ar with_access_token request scope =
    not with_access_token && flag scope ar.scopes || flag scope (requested_scopes_of names request)

module _ (o : Oidc) (names : ClaimNames) (p : TokenProvider) where
  -- The part that fetches the user again, where no access token is made or ID token claims are requested.
  unfoldable pub fetch_claims : AuthenticationRequest → AuthRecord → User → Bool → Result Fetched
  unfolding user_id_of found_of fetched_claims scopes_map
  fetch_claims ar auth u with_access_token = do
    let request : Option ClaimsRequestMap = id_token_request auth
    user_id ← user_id_of u.claims
    fresh ← found_of (
        p.managers.fetch auth.manager user_id (session_ref_of u) (some auth.authorized_scopes)
          (maps_of request) auth.authorized_scopes)
    profile ←
        fetched_claims new_profile_claims
          (is_wanted names ar with_access_token request o.scope_profile) o.scope_profile fresh
    email ←
        fetched_claims new_email_claims (is_wanted names ar with_access_token request o.scope_email)
          o.scope_email fresh
    ok (record { auth = fresh; profile = profile; email = email })

  unfoldable pub fetched_or : AuthenticationRequest → AuthRecord → User → Bool → Result Fetched
  unfolding fetch_claims
  fetched_or ar auth u with_access_token =
      if not with_access_token || is_some (id_token_request auth)
      then fetch_claims ar auth u with_access_token
      else ok (record { auth = some auth; profile = none; email = none })

  -- The hash of the access token or of the code, where there is one.
  abbrev pub hash_of : SigningKey → String → Result String
  hash_of sk token = if token == "" then ok "" else p.leftmost_hash sk.signing_method token

  -- The time of the logon; the current time where it is not known.
  unfoldable pub auth_time_of : Bool → Option AuthRecord → Result ℕ
  auth_time_of false auth = ok 0
  auth_time_of true none = panic
  auth_time_of true (some auth) = elim auth.auth_time [ none ↦ ok p.now | some t ↦ ok t ]

  -- ar.MaxAge > 0, of an int64 by its bits
  abbrev pub is_positive : ℕ → Bool
  is_positive n = ltb 0 n && ltb n 9223372036854775808

  -- withAuthTime
  abbrev pub with_auth_time : AuthenticationRequest → AuthRecord → Bool
  with_auth_time ar auth =
      is_positive ar.max_age
      || elim (id_token_request auth) [ none ↦ false | some m ↦ has o.auth_time_claim m ]

  -- The claims of the ID token before the extra claims.
  unfoldable pub id_token_claims :
      AuthenticationRequest
      → AuthRecord
      → User
      → Option Session
      → String
      → String
      → SigningKey
      → String
      → Result IdTokenFields
  unfolding fetched_or auth_time_of
  id_token_claims ar auth u session access_token code sk subject = do
    fetched ← fetched_or ar auth u (not (access_token == ""))
    access_token_hash ← hash_of sk access_token
    code_hash ← hash_of sk code
    auth_time ← auth_time_of (with_auth_time ar auth) fetched.auth
    ok (record {
      standard = standard_claims p subject ar.client_id p.id_token_duration "";
      nonce = ar.nonce;
      auth_time = auth_time;
      access_token_hash = access_token_hash;
      code_hash = code_hash;
      profile = fetched.profile;
      email = fetched.email;
      session = elim session [ none ↦ none | some s ↦ some s.id ];
    })

  -- The extra claims of the identity claims: those for ID tokens, and without an access token also those
  -- for access tokens.
  unfoldable pub with_extra_claims : Option (Dict Value) → Bool → Dict Value → Dict Value
  unfolding put_all
  with_extra_claims none with_access_token m = m
  with_extra_claims (some claims) true m =
      put_all (extra_of internal_extra_id_token_claims_claim claims) m
  with_extra_claims (some claims) false m =
      put_all (extra_of internal_extra_access_token_claims_claim claims)
        (put_all (extra_of internal_extra_id_token_claims_claim claims) m)

  -- makeIDToken; "" is no access token and no code
  unfoldable pub make_id_token :
      AuthenticationRequest
      → AuthRecord
      → Option Session
      → String
      → String
      → Option SigningMethod
      → Result String
  unfolding require_signing_key public_subject_from_auth id_token_claims with_extra_claims
  make_id_token ar auth session access_token code method = do
    sk ← require_signing_key p method
    subject ← public_subject_from_auth auth
    u ← or_error (failure "no user") auth.user
    claims ← id_token_claims ar auth u session access_token code sk subject
    m ← p.id_to_map claims
    p.signed_string sk sk.id
        (mapped_claims (with_extra_claims u.claims (not (access_token == "")) m))
