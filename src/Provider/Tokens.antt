-- ===== src/Provider/Tokens.antt =====
-- oidc/provider/tokens.go and subject.go: access tokens and the parts that the tokens share. The ID
-- tokens and the refresh tokens are the children.
pub mod Id
pub mod Refresh
pub mod Extra
pub mod Own
pub mod Final
pub mod Access
pub mod Usable
pub mod Maker
pub mod Override
use lico.Base.{
  ℕ, ◌+◌, String, Bool, true, false, Option, none, some, List, [], ◌∷◌, ◌++◌, ◌==◌, ◌||◌, ◌&&◌, not,
  if◌then◌else◌,
}
use lico.Base.Dict.{Dict, get, put, remove, has, flag}
use lico.Errors.{GoError, failure, Result, ok, err, panic, ◌>>=◌, deref, or_error}
use lico.Jwt.{SigningMethod}
use lico.Payload.Claims.{
  Value, Fields, text, object, map_of, object_of, as_object, as_text, marshal_scopes,
}
use lico.Identity.{AuthRecord, User, EmailClaims, ProfileClaims, make_array_from_bool_map}
use lico.Provider.Keys.{ProviderKeys, SigningKey, get_signing_key}
use lico.Provider.Managers.{IdentityManagers}
use lico.TokenClaims.{
  StandardClaims, AccessTokenClaims, RefreshTokenClaims, identity_claim, scopes_claim,
  internal_extra_id_token_claims_claim, internal_extra_access_token_claims_claim,
  token_type_access_token, scope_raw_subject,
}

-- IDTokenClaims of oidc/claims.go as makeIDToken fills it; "" and 0 are fields that are left out.
pub record IdTokenFields : Type 0 where
  pub standard : StandardClaims
  pub open standard use *
  pub nonce : String
  pub auth_time : ℕ
  pub access_token_hash : String
  pub code_hash : String
  pub profile : Option ProfileClaims
  pub email : Option EmailClaims
  pub session : Option String

-- The claims that a token is made with.
pub data TokenClaims : Type 0 where
  access_claims : AccessTokenClaims → TokenClaims
  refresh_claims : RefreshTokenClaims → TokenClaims
  mapped_claims : Dict Value → TokenClaims

-- What the provider has for the making of tokens: the configuration, the clock and a random id at the
-- time of the call, and other packages' functions: JSON encoding and decoding of claims (payload.ToMap),
-- the signing of a token with the key id in its header, the left-most hash of a text for a signing
-- method.
pub record TokenProvider : Type 0 where
  pub keys : ProviderKeys
  pub managers : IdentityManagers
  pub issuer_identifier : String
  pub access_token_duration : ℕ
  pub id_token_duration : ℕ
  pub refresh_token_duration : ℕ
  pub now : ℕ
  pub random_id : String
  pub access_to_map : AccessTokenClaims → Result (Dict Value)
  pub id_to_map : IdTokenFields → Result (Dict Value)
  pub signed_string : SigningKey → String → TokenClaims → Result String
  pub leftmost_hash : SigningMethod → String → Result String

-- userWithClaims.Claims(), nil for a user without
abbrev pub identity_claims_of : Option User → Option (Dict Value)
identity_claims_of none = none
identity_claims_of (some u) = u.claims

abbrev raw_of : Option User → Result String
raw_of none = err (failure "no user")
raw_of (some u) = ok u.raw

-- PublicSubjectFromAuth
unfoldable pub public_subject_from_auth : AuthRecord → Result String
public_subject_from_auth auth =
    if flag scope_raw_subject auth.authorized_scopes then raw_of auth.user else ok auth.sub

-- The value of an extra claim that names scopes, and the list that it extends.
unfoldable pub extend_scopes : List String → Value → List String × Value
extend_scopes scopes value =
    let extra : String = as_text (some value) in
    if extra == ""
    then (scopes, value)
    else (scopes ++ extra ∷ [], text (marshal_scopes (scopes ++ extra ∷ [])))

-- The loop over the extra access token claims.
unfoldable pub inject_extra : List String → Dict Value → Dict Value → Dict Value
unfolding extend_scopes
inject_extra scopes [] m = m
inject_extra scopes ((claim, value) ∷ extra) m =
    let (scopes1, value1) = extend_scopes scopes value in
    let scoped = inject_extra scopes1 extra (put claim value1 m) in
    let skipped = inject_extra scopes extra m in
    let added = inject_extra scopes extra (put claim value m) in
    if claim == scopes_claim then scoped else if has claim m then skipped else added

-- The two deletes in the identity claim of the map; a panic where that is not a map.
unfoldable pub strip_internal : Dict Value → Result (Dict Value)
strip_internal m = do
  fields ← deref (as_object (get identity_claim m))
  ok (
      put identity_claim
        (object (
          object_of (
            remove internal_extra_access_token_claims_claim
              (remove internal_extra_id_token_claims_claim (map_of fields)))))
        m)

-- The internal claim's map, if it is one.
abbrev pub extra_of : String → Dict Value → Dict Value
extra_of claim claims = elim (as_object (get claim claims)) [
  | none ↦ []
  | some fields ↦ map_of fields
]

module _ (p : TokenProvider) where
  -- getSigningKey, with the error where there is no key
  unfoldable pub require_signing_key : Option SigningMethod → Result SigningKey
  unfolding get_signing_key
  require_signing_key method = or_error (failure "no signing key") (get_signing_key p.keys method)

  abbrev pub standard_claims : String → String → ℕ → String → StandardClaims
  standard_claims subject audience duration id = record {
    issuer = p.issuer_identifier;
    subject = subject;
    audience = audience;
    expires_at = p.now + duration;
    issued_at = p.now;
    id = id;
  }

  abbrev pub provider_of : AuthRecord → String
  provider_of auth = elim auth.user [ none ↦ "" | some u ↦ p.managers.name auth.manager ]

  -- The claims of makeAccessToken before it looks for extra claims.
  unfoldable pub access_token_claims : String → AuthRecord → AccessTokenClaims
  unfolding make_array_from_bool_map
  access_token_claims audience auth = record {
    standard = standard_claims auth.sub audience p.access_token_duration p.random_id;
    token_type = token_type_access_token;
    authorized_claims_request = auth.authorized_claims;
    authorized_scopes_list = make_array_from_bool_map auth.authorized_scopes;
    identity_claims = identity_claims_of auth.user;
    identity_provider = provider_of auth;
    session = none;
  }

  -- The final claims of makeAccessToken.
  unfoldable pub final_claims : AccessTokenClaims → Option (Dict Value) → Result TokenClaims
  unfolding strip_internal inject_extra
  final_claims c none = ok (access_claims c)
  final_claims c (some identity) = do
    m ← p.access_to_map c
    stripped ← strip_internal m
    ok (
        mapped_claims (
          inject_extra c.authorized_scopes_list
            (extra_of internal_extra_access_token_claims_claim identity) stripped))

  -- makeAccessToken
  unfoldable pub make_access_token : String → AuthRecord → Option SigningMethod → Result String
  unfolding require_signing_key access_token_claims final_claims
  make_access_token audience auth method = do
    sk ← require_signing_key method
    claims ← final_claims (access_token_claims audience auth) (identity_claims_of auth.user)
    p.signed_string sk sk.id claims

  -- makeJWT
  unfoldable pub make_jwt : Option SigningMethod → Dict Value → Result String
  unfolding require_signing_key
  make_jwt method claims = do
    sk ← require_signing_key method
    p.signed_string sk sk.id (mapped_claims claims)
