-- ===== src/Provider/Tokens/Final.antt =====
-- What is signed in an access token for the claims of a record and the extra claims of its user
-- (makeAccessToken of oidc/provider/tokens.go).
use lico.Base.{
  ap, eq_iff, ◌⊎◌, ◌||◌, ◌&&◌, Bool-cases, String, ◌≡◌, ◌≢◌, refl, Option, none, some, List, ◌==◌,
  if◌then◌else◌, ne_of_eq, arith, Eq-cases, inl, inr,
}
use lico.Base.Dict.{Dict, get, has}
use lico.Errors.{ok}
use lico.Payload.Claims.{Value}
use lico.TokenClaims.{
  AccessTokenClaims, scopes_claim, identity_claim, internal_extra_access_token_claims_claim,
}
use lico.Provider.Tokens.{
  TokenProvider, TokenClaims, access_claims, mapped_claims, final_claims, strip_internal, extra_of,
  inject_extra,
}
use lico.Provider.Tokens.Extra.{
  get-inject_extra, inject_extra-absent, extra_map, extra_of-extra_map,
}
use lico.Provider.Tokens.Access.{
  HasNoInternal, strip_internal-clean, strip_internal-other, inject_extra-clean,
  final_claims-mapped,
}

-- At any claim but the identity claim, and the scopes claim where there is an extra one, the claims are the
-- token's own, or else the extra claims.
get-inject_extra-plain :
    (claim : String) (m stripped extra final : Dict Value)
    → strip_internal m ≡ ok stripped
    → (scopes : List String) → final ≡ inject_extra scopes extra stripped
    → get claim final ≡ (
        if claim == "lg.i" || (claim == "scp" && has "scp" extra)
        then get claim final
        else if has claim m
        then get claim m
        else get claim extra)
get-inject_extra-plain claim m stripped extra final clean scopes same =
    elim (Bool-cases (claim == "lg.i" || (claim == "scp" && has "scp" extra))) [
      | inl special ↦ rw special refl
      | inr plain ↦
          let no_identity : claim ≢ identity_claim =
            ne_of_eq claim identity_claim (ground (arith, plain)) in
          elim (Eq-cases claim scopes_claim) [
            | inl own ↦ ground (
              arith,
              plain,
              own,
              eq_iff claim "scp",
              same,
              inject_extra-absent scopes extra stripped,
              strip_internal-other m stripped claim no_identity clean,
            )
            | inr other ↦ ground (
              arith,
              plain,
              same,
              get-inject_extra scopes extra stripped claim other,
              strip_internal-other m stripped claim no_identity clean,
            )
          ]
    ]

module _ (p : TokenProvider) where
  -- The claims that are signed: the token's own claims as they are, if the user has no identity claims,
  -- and else a map of them, without the internal claims, where a claim that is new to the token may come
  -- from the user's extra claims, and the scopes claim is left open only if there is an extra one.
  abbrev pub IsFinal : AccessTokenClaims → TokenClaims → Type 0
  IsFinal own claims =
      ((own.identity_claims ≡ none) × (claims ≡ access_claims own))
      ⊎ ((identity : Dict Value) × (m : Dict Value) × (final : Dict Value) × (own.identity_claims
            ≡ some identity)
          × (p.access_to_map own ≡ ok m)
          × (claims ≡ mapped_claims final)
          × HasNoInternal final
          × ((claim : String)
              → get claim final ≡ (
                  if claim == "lg.i"
                    || (claim == "scp" && has "scp" (extra_map (get "$lico.at.extra" identity)))
                  then get claim final
                  else if has claim m
                  then get claim m
                  else get claim (extra_map (get "$lico.at.extra" identity)))))

  pub final_claims-IsFinal :
      (own : AccessTokenClaims) (found : Option (Dict Value)) (claims : TokenClaims)
      → own.identity_claims ≡ found
      → final_claims p own found ≡ ok claims
      → IsFinal own claims
  unfolding final_claims
  final_claims-IsFinal own none claims same h = inl (same, cc h)
  final_claims-IsFinal own (some identity) claims same h =
      let (m, stripped, mapped, clean, is_final) =
        final_claims-mapped p own (some identity) identity claims refl h in
      let extra : Dict Value = extra_of internal_extra_access_token_claims_claim identity in
      inr (
        identity,
        m,
        inject_extra own.authorized_scopes_list extra stripped,
        same,
        mapped,
        is_final,
        inject_extra-clean own.authorized_scopes_list extra stripped
            (strip_internal-clean m stripped clean),
        λ claim.
            get-inject_extra-plain claim m stripped (extra_map (get "$lico.at.extra" identity)) _
              clean own.authorized_scopes_list
              (ap (λ (x : Dict Value). inject_extra own.authorized_scopes_list x stripped)
                (extra_of-extra_map internal_extra_access_token_claims_claim identity)),
      )
