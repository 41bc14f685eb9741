-- ===== src/Provider/UserInfo/Extra.antt =====
-- The claims of a user info response beside those of the standard scopes, and of a signed response
-- (oidc/provider/handlers.go, identity/utils.go).
use lico.Base.{
  String, ◌≡◌, ◌≢◌, refl, sym, ap, Bool, Option, none, some, List, [], ◌==◌, if◌then◌else◌, eq_iff,
  ne_of_eq, arith, Bool-cases, Option-cases, then_of, else_of, inl, inr,
}
use lico.Base.Dict.{Dict, get, put, flag, get-put, get-put-other}
use lico.Errors.{ok, >>=-eq-ok}
use lico.Jwt.{SigningMethod}
use lico.Oidc.{Oidc}
use lico.Clients.{ClientRegistration}
use lico.Payload.Claims.{ClaimNames, ClaimsRequestMap, Value, text}
use lico.Identity.{AuthRecord, User, ScopeClaims, email_claims, profile_claims}
use lico.Identity.Claims.{
  get_user_claims_for_scopes, claims_of_scope, add_email, add_profile, add_requested_maps,
  add_email_claim, or_no_email, add_profile_claim, or_no_profile, new_email_claims,
  new_profile_claims, authorized_scope_claims, put_some, as_email_claims, as_profile_claims,
  profile_of, extra_claims, own_scoped_claims,
}
use lico.Identity.Claims.Email.{get-put_some-other, get-with_extra}
use lico.Identity.Claims.Profile.{add_requested_maps-keeps}
use lico.Provider.Keys.{SigningKey, get_signing_key}
use lico.Provider.Tokens.{mapped_claims, require_signing_key, make_jwt}
use lico.Provider.Tokens.Access.{require_signing_key-eq-ok}
use lico.TokenClaims.{internal_extra_access_token_claims_claim}
use lico.Provider.UserInfo.{
  UserInfoEndpoint, json, signed, sign_response, extra_claims_of, as_map_claims,
}

-- No claims under a key.
abbrev Lacks : String → Dict ScopeClaims → Type 0
Lacks key m = get key m ≡ none

module _ (names : ClaimNames) (key : String) (mail_differs : names.scope_email ≢ key)
    (profile_differs : names.scope_profile ≢ key) where
  add_email-Lacks :
      (u : User) (claim : String) (m after : Dict ScopeClaims)
      → Lacks key m
      → add_email names u claim m ≡ ok after
      → Lacks key after
  unfolding add_email
  add_email-Lacks u claim m after lacks h = elim (Option-cases u.email) [
    | inl absent ↦ let kept : ok m ≡ ok after = rw absent at h in cc (kept, lacks)
    | inr (mine, has) ↦
        let stored = rw has at h in
        let (there, found, same) =
          >>=-eq-ok (new_email_claims (get names.scope_email m)) _ stored in
        cc (
          same,
          lacks,
          get-put-other names.scope_email key
              (email_claims (add_email_claim names claim mine (or_no_email there))) m mail_differs,
        )
  ]

  add_profile-Lacks :
      (u : User) (claim : String) (m after : Dict ScopeClaims)
      → Lacks key m
      → add_profile names u claim m ≡ ok after
      → Lacks key after
  unfolding add_profile
  add_profile-Lacks u claim m after lacks h = elim (Option-cases u.profile) [
    | inl absent ↦ let kept : ok m ≡ ok after = rw absent at h in cc (kept, lacks)
    | inr (mine, has) ↦
        let stored = rw has at h in
        let (there, found, same) =
          >>=-eq-ok (new_profile_claims (get names.scope_profile m)) _ stored in
        cc (
          same,
          lacks,
          get-put-other names.scope_profile key
              (profile_claims (add_profile_claim names claim mine (or_no_profile there))) m
              profile_differs,
        )
  ]

  authorized-Lacks :
      (u : User) (scopes : Dict Bool) → Lacks key (authorized_scope_claims names u scopes)
  unfolding authorized_scope_claims get
  authorized-Lacks u scopes =
      let mail : Option ScopeClaims =
        if flag names.scope_email scopes then as_email_claims u.email else none in
      rw
        (
          get-put_some-other
              (if flag names.scope_profile scopes then as_profile_claims (profile_of u) else none)
              (put_some names.scope_email mail []) profile_differs,
          get-put_some-other mail [] mail_differs,
        )
        refl

  pub get_user_claims_for_scopes-Lacks :
      (u : Option User) (scopes : Dict Bool) (requested : List ClaimsRequestMap)
      → (claims : Dict ScopeClaims) → key ≢ ""
      → get_user_claims_for_scopes names u scopes requested ≡ ok claims
      → Lacks key claims
  unfolding get_user_claims_for_scopes get
  get_user_claims_for_scopes-Lacks none scopes requested claims named h =
      let empty : [] ≡ claims = cc h in rw (sym empty) refl
  get_user_claims_for_scopes-Lacks (some u) scopes requested claims named h =
      let (c, collected, same) = >>=-eq-ok (add_requested_maps names u scopes requested _) _ h in
      let lacks =
        add_requested_maps-keeps names u scopes (Lacks key) (add_email-Lacks u)
          (λ claim m after off. add_profile-Lacks u claim m after) requested _ c
          (authorized-Lacks u scopes) collected in
      cc (
        same,
        lacks,
        get-with_extra (extra_claims (own_scoped_claims u scopes) c.unknown) c.claims named,
      )

-- The user info handler finds no extra claims in a record whose claims GetUserClaimsForScopes collected,
-- where neither standard scope is the internal claim: it looks for them under the internal claim, and
-- they are kept under the empty scope.
pub extra_claims_of-collected :
    (names : ClaimNames) (u : Option User) (scopes : Dict Bool) (requested : List ClaimsRequestMap)
    → (auth : AuthRecord) → names.scope_email ≢ internal_extra_access_token_claims_claim
    → names.scope_profile ≢ internal_extra_access_token_claims_claim
    → get_user_claims_for_scopes names u scopes requested ≡ ok auth.claims_by_scope
    → extra_claims_of auth ≡ []
unfolding extra_claims_of claims_of_scope
extra_claims_of-collected names u scopes requested auth mail profile h = ap as_map_claims (
    get_user_claims_for_scopes-Lacks names internal_extra_access_token_claims_claim mail profile u
      scopes requested auth.claims_by_scope (ne_of_eq _ _ refl) h)

module _ (o : Oidc) (e : UserInfoEndpoint) where
  -- A claim of a signed response.
  unfoldable pub signed_claim : ClientRegistration → Dict Value → String → Option Value
  signed_claim registration m claim =
      if claim == o.audience_claim
      then some (text registration.id)
      else if claim == o.issuer_identifier_claim
      then some (text e.tokens.issuer_identifier)
      else get claim m

  make_jwt-signed :
      (method : Option SigningMethod) (claims : Dict Value) (token : String)
      → make_jwt e.tokens method claims ≡ ok token
      → (sk : SigningKey) × (require_signing_key e.tokens method ≡ ok sk)
        × (e.tokens.signed_string sk sk.id (mapped_claims claims) ≡ ok token)
  unfolding make_jwt
  make_jwt-signed method claims token h = >>=-eq-ok (require_signing_key e.tokens method) _ h

  get-signed :
      (r : ClientRegistration) (m : Dict Value) (claim : String)
      → get claim (
          put o.audience_claim
            (text r.id)
            (put o.issuer_identifier_claim (text e.tokens.issuer_identifier) m))
        ≡ signed_claim r m claim
  unfolding signed_claim
  get-signed r m claim = ground (
    arith,
    get-put o.audience_claim claim (text r.id)
        (put o.issuer_identifier_claim (text e.tokens.issuer_identifier) m),
    get-put o.issuer_identifier_claim claim (text e.tokens.issuer_identifier) m,
    eq_iff claim o.audience_claim,
    eq_iff o.audience_claim claim,
    eq_iff claim o.issuer_identifier_claim,
    eq_iff o.issuer_identifier_claim claim,
  )

  -- A signed user info response is made only for a registration that names a signing algorithm, with the
  -- provider's key for that algorithm; its audience is the client and its issuer the provider, whatever
  -- the other claims say, and every other claim stays.
  pub sign_response-signed :
      (registration : Option ClientRegistration) (m : Dict Value) (token claim : String)
      → sign_response o e registration m ≡ ok (signed token)
      → (r : ClientRegistration) × (sk : SigningKey) × (final : Dict Value) × (registration
          ≡ some r)
        × (r.raw_user_info_signed_response_alg ≢ "")
        × (get_signing_key e.tokens.keys (e.get_signing_method r.raw_user_info_signed_response_alg)
            ≡ some sk)
        × (e.tokens.signed_string sk sk.id (mapped_claims final) ≡ ok token)
        × (get claim final ≡ signed_claim r m claim)
  unfolding sign_response
  sign_response-signed none m token claim h = cc
  sign_response-signed (some r) m token claim h =
      let claims : Dict Value =
        put o.audience_claim (text r.id)
          (put o.issuer_identifier_claim (text e.tokens.issuer_identifier) m) in
      elim (Bool-cases (r.raw_user_info_signed_response_alg == "")) [
        | inl plain ↦ let wrong : ok (json m) ≡ ok (signed token) = then_of _ plain h in cc wrong
        | inr wanted ↦
            let (t, made, same) =
              >>=-eq-ok
                (make_jwt e.tokens (e.get_signing_method r.raw_user_info_signed_response_alg)
                  claims)
                _ (else_of _ wanted h) in
            let (sk, key, signs) =
              make_jwt-signed (e.get_signing_method r.raw_user_info_signed_response_alg) claims t
                made in
            (
              r,
              sk,
              claims,
              refl,
              ne_of_eq _ _ wanted,
              require_signing_key-eq-ok e.tokens _ sk key,
              cc (signs, same),
              get-signed r m claim,
            )
      ]
