-- ===== src/Provider/Tokens/Access.antt =====
-- What makeAccessToken of oidc/provider/tokens.go signs.
use mathlib.Core.Path.{subst}
use lico.Base.{
  ap, String, ◌≡◌, ◌≢◌, refl, sym, ◌∙◌, false, Option, none, some, List, ◌==◌, if◌then◌else◌,
  eq_refl, eq_of_ne, ne_of_eq, arith, Eq-cases, inl, inr,
}
use lico.Base.Dict.{
  Dict, get, put, remove, has, get-put-same, get-put-other, get-remove, IsDistinct,
}
use lico.Errors.{ok, deref, or_error-eq-ok, failure, >>=-eq-ok}
use lico.Jwt.{SigningMethod}
use lico.Payload.Claims.{Value, Fields, object, map_of, object_of, as_object}
use lico.Identity.{AuthRecord, User}
use lico.Provider.Keys.{SigningKey, get_signing_key}
use lico.TokenClaims.{
  AccessTokenClaims, scopes_claim, identity_claim, internal_extra_access_token_claims_claim,
  internal_extra_id_token_claims_claim,
}
use lico.Provider.Tokens.{
  TokenProvider, TokenClaims, mapped_claims, require_signing_key, access_token_claims,
  identity_claims_of, final_claims, strip_internal, extra_of, inject_extra, make_access_token,
}
use lico.Provider.Tokens.Own.{granted_names, IsOwn, access_token_claims-IsOwn}
use lico.Provider.Tokens.Extra.{
  map_of-object_of, get-inject_extra, get-inject_extra-scopes, scopes_after, extra_map,
  extra_of-extra_map,
}

-- The identity claim is there and has neither of the internal claims.
abbrev pub HasNoInternal : Dict Value → Type 0
HasNoInternal m =
    (inner : Fields) × (get identity_claim m ≡ some (object inner))
    × (has internal_extra_access_token_claims_claim (map_of inner) ≡ false)
    × (has internal_extra_id_token_claims_claim (map_of inner) ≡ false)

has-remove : (k j : String) (m : Dict Value) → has j m ≡ false → has j (remove k m) ≡ false
has-remove k j m absent = ground (arith, get-remove k j m)

has-remove-same : (k : String) (m : Dict Value) → has k (remove k m) ≡ false
has-remove-same k m = ground (arith, get-remove k k m, eq_refl k)

pub strip_internal-clean :
    (m stripped : Dict Value) → strip_internal m ≡ ok stripped → HasNoInternal stripped
unfolding strip_internal
strip_internal-clean m stripped h =
    let (fields, there, stored) = >>=-eq-ok (deref (as_object (get identity_claim m))) _ h in
    let once : Dict Value = remove internal_extra_id_token_claims_claim (map_of fields) in
    let inner : Dict Value = remove internal_extra_access_token_claims_claim once in
    let kept : put identity_claim (object (object_of inner)) m ≡ stripped = cc stored in
    (
      object_of inner,
      rw (sym kept) (get-put-same identity_claim (object (object_of inner)) m),
      rw (map_of-object_of inner) (has-remove-same internal_extra_access_token_claims_claim once),
      rw (map_of-object_of inner) (
          has-remove internal_extra_access_token_claims_claim internal_extra_id_token_claims_claim
            once (has-remove-same internal_extra_id_token_claims_claim (map_of fields))),
    )

pub strip_internal-other :
    (m stripped : Dict Value) (claim : String)
    → claim ≢ identity_claim
    → strip_internal m ≡ ok stripped
    → get claim stripped ≡ get claim m
unfolding strip_internal
strip_internal-other m stripped claim other h =
    let (fields, there, stored) = >>=-eq-ok (deref (as_object (get identity_claim m))) _ h in
    let inner : Fields = object_of (
      remove internal_extra_access_token_claims_claim
        (remove internal_extra_id_token_claims_claim (map_of fields))) in
    let kept : put identity_claim (object inner) m ≡ stripped = cc stored in
    rw (sym kept) (get-put-other identity_claim claim (object inner) m (λ b. other (sym b)))

-- The loop over the extra claims leaves the identity claim.
pub inject_extra-clean :
    (scopes : List String) (extra m : Dict Value)
    → HasNoInternal m
    → HasNoInternal (inject_extra scopes extra m)
inject_extra-clean scopes extra m (inner, there, first, second) = (
  inner,
  ground (arith, there, get-inject_extra scopes extra m identity_claim (ne_of_eq _ _ refl)),
  first,
  second,
)

-- The claims of an access token with extra claims, at one claim: of the scopes claim the extra scopes
-- come after the granted ones.
abbrev pub extended_claim : List String → Dict Value → Dict Value → String → Option Value
extended_claim granted extra m claim =
    if claim == "scp"
    then scopes_after granted (get "scp" extra) (get "scp" m)
    else if has claim m
    then get claim m
    else get claim extra

module _ (p : TokenProvider) where
  pub require_signing_key-eq-ok :
      (method : Option SigningMethod) (sk : SigningKey)
      → require_signing_key p method ≡ ok sk
      → get_signing_key p.keys method ≡ some sk
  unfolding require_signing_key
  require_signing_key-eq-ok method sk h = or_error-eq-ok (failure "no signing key") _ h

  -- The claims over a map of claims, as the loop leaves them.
  pub final_claims-mapped :
      (c : AccessTokenClaims) (found : Option (Dict Value)) (identity : Dict Value)
      → (claims : TokenClaims) → found ≡ some identity
      → final_claims p c found ≡ ok claims
      → (m : Dict Value) × (stripped : Dict Value) × (p.access_to_map c ≡ ok m)
        × (strip_internal m ≡ ok stripped)
        × (claims
            ≡ mapped_claims (
                inject_extra c.authorized_scopes_list
                  (extra_of internal_extra_access_token_claims_claim identity)
                  stripped))
  unfolding final_claims
  final_claims-mapped c none identity claims same h = cc
  final_claims-mapped c (some found) identity claims is_identity h =
      let (m, mapped, h1) = >>=-eq-ok (p.access_to_map c) _ h in
      let (stripped, clean, same) = >>=-eq-ok (strip_internal m) _ h1 in
      (m, stripped, mapped, clean, cc (same, is_identity))

  inject_extra-extended :
      (scopes : List String) (extra m stripped : Dict Value) (claim : String)
      → IsDistinct extra
      → claim ≢ identity_claim
      → strip_internal m ≡ ok stripped
      → get claim (inject_extra scopes extra stripped) ≡ extended_claim scopes extra m claim
  inject_extra-extended scopes extra m stripped claim distinct other h =
      elim (Eq-cases claim scopes_claim) [
        | inl own ↦
            rw
              (
                own,
                get-inject_extra-scopes scopes extra stripped distinct,
                strip_internal-other m stripped scopes_claim (λ b. other (own ∙ b)) h,
              )
              refl
        | inr different ↦ ground (
          arith,
          get-inject_extra scopes extra stripped claim different,
          strip_internal-other m stripped claim other h,
          eq_of_ne claim scopes_claim different,
        )
      ]

  -- An access token for a user with identity claims, if one is made, is signed with the provider's key
  -- over a map of claims, which is made of the claims of an access token for the audience and the record.
  -- Its identity claim has neither internal claim. Any other claim is the token's own, if the token has
  -- it, and else the user's extra claim. Only the scopes claim is that of the user, if there is an extra
  -- one: the granted scopes with the extra text after them, or, if that is empty or no text, the extra
  -- value in place of the scopes.
  pub make_access_token-extended :
      (audience : String) (auth : AuthRecord) (method : Option SigningMethod) (token : String)
      → (u : User) (identity : Dict Value) (claim : String) → auth.user ≡ some u
      → u.claims ≡ some identity
      → IsDistinct (extra_map (get "$lico.at.extra" identity))
      → claim ≢ identity_claim
      → make_access_token p audience auth method ≡ ok token
      → (sk : SigningKey) × (own : AccessTokenClaims) × (m : Dict Value) × (final : Dict Value)
        × (get_signing_key p.keys method ≡ some sk)
        × IsOwn p audience auth own
        × (p.access_to_map own ≡ ok m)
        × (p.signed_string sk sk.id (mapped_claims final) ≡ ok token)
        × HasNoInternal final
        × (get claim final
            ≡ extended_claim
                (granted_names auth.authorized_scopes)
                (extra_map (get "$lico.at.extra" identity))
                m
                claim)
  unfolding make_access_token final_claims
  make_access_token-extended audience auth method token u identity claim logged has_claims distinct
        other h =
      let (sk, key, h1) = >>=-eq-ok (require_signing_key p method) _ h in
      let own : AccessTokenClaims = access_token_claims p audience auth in
      let is_own = access_token_claims-IsOwn p audience auth in
      let (claims, final, signed) =
        >>=-eq-ok (final_claims p own (identity_claims_of auth.user)) _ h1 in
      let user_claims : identity_claims_of auth.user ≡ some identity = rw logged has_claims in
      let (m, stripped, mapped, clean, same) =
        final_claims-mapped own _ identity claims user_claims final in
      let extra : Dict Value = extra_of internal_extra_access_token_claims_claim identity in
      let is_extra = extra_of-extra_map internal_extra_access_token_claims_claim identity in
      let extended =
        inject_extra-extended own.authorized_scopes_list extra m stripped claim
          (subst IsDistinct (sym is_extra) distinct) other clean in
      (
        sk,
        own,
        m,
        inject_extra own.authorized_scopes_list extra stripped,
        require_signing_key-eq-ok method sk key,
        is_own,
        mapped,
        rw same at signed,
        inject_extra-clean own.authorized_scopes_list extra stripped
            (strip_internal-clean m stripped clean),
        extended
            ∙ ap (λ (e : Dict Value). extended_claim own.authorized_scopes_list e m claim) is_extra
            ∙ ap
                (λ (scopes : List String).
                  extended_claim scopes (extra_map (get "$lico.at.extra" identity)) m claim)
                is_own.scopes,
      )
