-- ===== src/Provider/UserInfo/Sound.antt =====
-- To whom UserInfoHandler of oidc/provider/handlers.go answers, and about whom.
use lico.Base.{
  String, ◌≡◌, ◌≢◌, refl, true, Option, none, some, List, [], ◌∷◌, ◌⊎◌, Option-cases, inl, inr,
}
use lico.Base.Dict.{set_of}
use lico.Payload.Claims.{ClaimsRequest, ClaimsRequestMap}
use lico.Errors.{ok}
use lico.Oidc.{Oidc}
use lico.Identity.{AuthRecord, ManagerRef}
use lico.Provider.Managers.{manager_from_claims, user_from_claims}
use lico.TokenClaims.{AccessTokenClaims}
use lico.Provider.UserInfo.{UserInfoEndpoint, requested_maps}

module _ (o : Oidc) (e : UserInfoEndpoint) where
  -- The claims request for user info, if there is one.
  abbrev pub requested_of : Option ClaimsRequest → List ClaimsRequestMap
  requested_of none = []
  requested_of (some request) = elim request.user_info [ none ↦ [] | some m ↦ m ∷ [] ]

  pub requested_maps-requested_of :
      (claims : AccessTokenClaims)
      → requested_maps claims ≡ requested_of claims.authorized_claims_request
  requested_maps-requested_of claims = elim (Option-cases claims.authorized_claims_request) [
    | inl nothing ↦ rw nothing refl
    | inr (request, present) ↦ rw present refl
  ]

  -- What the handler has asked for a user and its manager.
  abbrev pub IsUserOf : AccessTokenClaims → AuthRecord → Type 0
  IsUserOf claims auth =
      let user : String × Option String =
        user_from_claims e.tokens.managers claims.audience claims.session claims.identity_claims in
      (manager : ManagerRef) × (manager_from_claims e.tokens.managers claims.identity_provider
          claims.identity_claims
        ≡ ok manager)
      × (user.0 ≢ "")
      × (e.tokens.managers.fetch manager user.0 user.1 (some (set_of claims.authorized_scopes_list))
            (requested_of claims.authorized_claims_request) (set_of claims.authorized_scopes_list)
          ≡ (some auth, true, none))

  -- The methods that the endpoint answers.
  abbrev pub IsAnswered : String → Type 0
  IsAnswered method = (method ≡ "HEAD") ⊎ ((method ≡ "POST") ⊎ (method ≡ "GET"))
