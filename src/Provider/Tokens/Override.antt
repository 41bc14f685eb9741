-- ===== src/Provider/Tokens/Override.antt =====
-- What makeIDToken of oidc/provider/tokens.go signs.
use lico.Base.{String, ◌≡◌, refl, Bool, true, false, Option, none, some, ◌==◌, not}
use lico.Base.Dict.{Dict, get, IsDistinct}
use lico.Errors.{ok, >>=-eq-ok, failure, or_error, or_error-eq-ok}
use lico.Jwt.{SigningMethod}
use lico.Oidc.{Oidc}
use lico.Payload.Claims.{ClaimNames, Value}
use lico.Payload.Authentication.{AuthenticationRequest, Session}
use lico.Identity.{AuthRecord, User}
use lico.Identity.Claims.{put_all}
use lico.Provider.Keys.{SigningKey, get_signing_key}
use lico.TokenClaims.{
  internal_extra_access_token_claims_claim, internal_extra_id_token_claims_claim,
}
use lico.Provider.Tokens.{
  TokenProvider, IdTokenFields, mapped_claims, require_signing_key, extra_of,
  public_subject_from_auth,
}
use lico.Provider.Tokens.Extra.{get-put_all, or_else}
use lico.Provider.Tokens.Access.{require_signing_key-eq-ok}
use lico.Provider.Tokens.Id.{
  id_token_claims, with_extra_claims, make_id_token, fetched_or, hash_of, with_auth_time,
  auth_time_of,
}

-- A claim of an ID token: without an access token the first choice is the user's extra claim for access
-- tokens, then in any case the extra claim for ID tokens, then the token's own.
unfoldable pub overridden_claim : Option (Dict Value) → Bool → Dict Value → String → Option Value
overridden_claim none with_access_token m claim = get claim m
overridden_claim (some claims) true m claim =
    or_else (get claim (extra_of internal_extra_id_token_claims_claim claims)) (get claim m)
overridden_claim (some claims) false m claim =
    or_else (get claim (extra_of internal_extra_access_token_claims_claim claims))
      (or_else (get claim (extra_of internal_extra_id_token_claims_claim claims)) (get claim m))

-- The user's extra claims, as maps of Go: no name stands twice.
abbrev pub HasDistinctExtra : Option (Dict Value) → Type 0
HasDistinctExtra none = Unit
HasDistinctExtra (some claims) =
    IsDistinct (extra_of internal_extra_access_token_claims_claim claims)
    × IsDistinct (extra_of internal_extra_id_token_claims_claim claims)

module _ (o : Oidc) (names : ClaimNames) (p : TokenProvider) where
  get-with_extra_claims :
      (claims : Option (Dict Value)) (with_access_token : Bool) (m : Dict Value) (claim : String)
      → HasDistinctExtra claims
      → get claim (with_extra_claims o names p claims with_access_token m)
        ≡ overridden_claim claims with_access_token m claim
  unfolding with_extra_claims overridden_claim
  get-with_extra_claims none with_access_token m claim distinct = refl
  get-with_extra_claims (some claims) true m claim distinct =
      get-put_all (extra_of internal_extra_id_token_claims_claim claims) m claim distinct.1
  get-with_extra_claims (some claims) false m claim distinct =
      rw
        (
          get-put_all (extra_of internal_extra_access_token_claims_claim claims)
              (put_all (extra_of internal_extra_id_token_claims_claim claims) m) claim distinct.0,
          get-put_all (extra_of internal_extra_id_token_claims_claim claims) m claim distinct.1,
        )
        refl

  -- The claims of an ID token name the provider as issuer, the client of the request as audience and its
  -- nonce, and the public subject of the user; they have the hashes of the access token and of the code
  -- where these are there.
  abbrev pub IsAboutRequest :
      AuthenticationRequest → AuthRecord → SigningKey → String → String → IdTokenFields → Type 0
  IsAboutRequest ar auth sk access code c =
      (c.issuer ≡ p.issuer_identifier)
      × (c.audience ≡ ar.client_id)
      × (c.nonce ≡ ar.nonce)
      × (public_subject_from_auth auth ≡ ok c.subject)
      × (hash_of o names p sk access ≡ ok c.access_token_hash)
      × (hash_of o names p sk code ≡ ok c.code_hash)

  id_token_claims-about :
      (ar : AuthenticationRequest) (auth : AuthRecord) (u : User) (session : Option Session)
      → (access code : String) (sk : SigningKey) (subject : String) (c : IdTokenFields)
      → public_subject_from_auth auth ≡ ok subject
      → id_token_claims o names p ar auth u session access code sk subject ≡ ok c
      → IsAboutRequest ar auth sk access code c
  unfolding id_token_claims
  id_token_claims-about ar auth u session access code sk subject c named h =
      let (fetched, found, h1) =
        >>=-eq-ok (fetched_or o names p ar auth u (not (access == ""))) _ h in
      let (access_hash, hashed, h2) = >>=-eq-ok (hash_of o names p sk access) _ h1 in
      let (code_hash, code_hashed, h3) = >>=-eq-ok (hash_of o names p sk code) _ h2 in
      let (time, timed, same) =
        >>=-eq-ok (auth_time_of o names p (with_auth_time o names p ar auth) fetched.auth) _ h3 in
      (cc same, cc same, cc same, cc (same, named), cc (same, hashed), cc (same, code_hashed))

  -- An ID token, if one is made, is signed with the provider's key over the map of claims about the
  -- request and the user, in which the user's extra claims, of which no name stands twice, override the
  -- token's own claims.
  pub make_id_token-overridden :
      (ar : AuthenticationRequest) (auth : AuthRecord) (session : Option Session)
      → (access code : String) (method : Option SigningMethod) (u : User) (token claim : String)
      → auth.user ≡ some u
      → HasDistinctExtra u.claims
      → make_id_token o names p ar auth session access code method ≡ ok token
      → (sk : SigningKey) × (c : IdTokenFields) × (m : Dict Value) × (final : Dict Value)
        × (get_signing_key p.keys method ≡ some sk)
        × IsAboutRequest ar auth sk access code c
        × (p.id_to_map c ≡ ok m)
        × (p.signed_string sk sk.id (mapped_claims final) ≡ ok token)
        × (get claim final ≡ overridden_claim u.claims (not (access == "")) m claim)
  unfolding make_id_token
  make_id_token-overridden ar auth session access code method u token claim logged distinct h =
      let (sk, key, h1) = >>=-eq-ok (require_signing_key p method) _ h in
      let (subject, named, h2) = >>=-eq-ok (public_subject_from_auth auth) _ h1 in
      let (v, there, h3) = >>=-eq-ok (or_error (failure "no user") auth.user) _ h2 in
      let same : v ≡ u = cc (logged, or_error-eq-ok (failure "no user") auth.user there) in
      let (c, made, h4) =
        >>=-eq-ok (id_token_claims o names p ar auth v session access code sk subject) _ h3 in
      let (m, mapped, signed) = >>=-eq-ok (p.id_to_map c) _ h4 in
      (
        sk,
        c,
        m,
        with_extra_claims o names p u.claims (not (access == "")) m,
        require_signing_key-eq-ok p method sk key,
        id_token_claims-about ar auth v session access code sk subject c named made,
        mapped,
        rw same at signed,
        get-with_extra_claims u.claims (not (access == "")) m claim distinct,
      )
