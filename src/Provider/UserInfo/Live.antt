-- ===== src/Provider/UserInfo/Live.antt =====
-- An access token that makeAccessToken of oidc/provider/tokens.go made, at UserInfoHandler of
-- oidc/provider/handlers.go.
use lico.Base.{String, ◌≡◌, ◌≢◌, refl, sym, ap, ◌∙◌, true, Option, none, some, eq_of_ne, eq_refl}
use lico.Base.Text.{cut}
use lico.Base.Dict.{Dict, set_of}
use lico.Errors.{Result, ok}
use lico.Jwt.{Token}
use lico.Oidc.{Oidc}
use lico.Identity.{AuthRecord, User, ManagerRef}
use lico.Payload.Claims.{Value}
use lico.TokenClaims.{AccessTokenClaims, authorized_scopes_of}
use lico.Provider.Managers.{manager_from_claims, user_from_claims}
use lico.Provider.Tokens.{access_token_claims}
use lico.Provider.Tokens.Usable.{IsNamed, get_identity_manager-name}
use lico.Provider.Tokens.Own.{granted_names, access_token_claims-IsOwn}
use lico.Provider.UserInfo.Sound.{requested_of, requested_maps-requested_of}
use lico.Provider.UserInfo.{
  UserInfoEndpoint, access_token_key, parsed_claims, claims_of_token, claims_of_header,
  get_access_token_claims_from_request, find_user, found_auth, respond_user, answer_of,
  answer_found, answer_claims, user_info_handler,
}

module _ (o : Oidc) (e : UserInfoEndpoint) where
  find_user-of_manager :
      (claims : AccessTokenClaims) (manager : ManagerRef) (id : String) (session : Option String)
      → (found : AuthRecord)
      → manager_from_claims e.tokens.managers claims.identity_provider claims.identity_claims
        ≡ ok manager
      → user_from_claims e.tokens.managers claims.audience claims.session claims.identity_claims
        ≡ (id, session)
      → id ≢ ""
      → e.tokens.managers.fetch manager id session
          (some (set_of claims.authorized_scopes_list))
          (requested_of o e claims.authorized_claims_request)
          (set_of claims.authorized_scopes_list)
        ≡ (some found, true, none)
      → find_user o e claims ≡ ok (some found, true)
  unfolding find_user found_auth authorized_scopes_of
  find_user-of_manager claims manager id session found managed user filled fetched =
      rw (managed, user, eq_of_ne id "" filled, requested_maps-requested_of o e claims, fetched)
        refl

  managed_of_record :
      (audience : String) (auth : AuthRecord) (u : User) (identity : Dict Value)
      → auth.user ≡ some u
      → u.claims ≡ some identity
      → IsNamed e.tokens.managers auth.manager
      → manager_from_claims e.tokens.managers
          (access_token_claims e.tokens audience auth).identity_provider
          (access_token_claims e.tokens audience auth).identity_claims
        ≡ ok auth.manager
  unfolding access_token_claims manager_from_claims
  managed_of_record audience auth u identity logged has_claims named =
      rw (logged, has_claims, get_identity_manager-name e.tokens.managers auth.manager named) refl

  user_of_record :
      (audience : String) (auth : AuthRecord) (u : User) (identity : Dict Value)
      → auth.user ≡ some u
      → u.claims ≡ some identity
      → user_from_claims e.tokens.managers
          (access_token_claims e.tokens audience auth).audience
          (access_token_claims e.tokens audience auth).session
          (access_token_claims e.tokens audience auth).identity_claims
        ≡ user_from_claims e.tokens.managers audience none (some identity)
  unfolding access_token_claims
  user_of_record audience auth u identity logged has_claims = rw (logged, has_claims) refl

  answer_claims-of_user :
      (read : Result AccessTokenClaims) (claims : AccessTokenClaims) (found : AuthRecord)
      → read ≡ ok claims
      → find_user o e claims ≡ ok (some found, true)
      → answer_claims o e read ≡ answer_of o e (respond_user o e claims found)
  unfolding answer_claims answer_found
  answer_claims-of_user read claims found is_read is_found = rw (is_read, is_found) refl

  claims_of_header-parsed :
      (header raw : String) (token : Token AccessTokenClaims)
      → cut b' ' header ≡ (o.token_type_bearer, some raw)
      → e.parse_access raw (access_token_key o e) ≡ ok token
      → get_access_token_claims_from_request o e header ≡ ok token.claims
  unfolding get_access_token_claims_from_request claims_of_header claims_of_token parsed_claims
  claims_of_header-parsed header raw token bearer parsed =
      rw (bearer, eq_refl o.token_type_bearer) (ap (parsed_claims o e) parsed)

  -- The user info endpoint answers a GET request with a Bearer token that is parsed as the claims that
  -- were made for a record, whose user has identity claims with an id: where the record's manager, found
  -- under its name, finds the user for exactly the scopes that the record grants, and for its claims
  -- request for user info, the answer is that for the record it found.
  pub user_info_handler-access_token_claims :
      (header raw audience id : String) (token : Token AccessTokenClaims) (auth found : AuthRecord)
      → (u : User) (identity : Dict Value) (session : Option String)
      → cut b' ' header ≡ (o.token_type_bearer, some raw)
      → e.parse_access raw (access_token_key o e) ≡ ok token
      → token.claims ≡ access_token_claims e.tokens audience auth
      → auth.user ≡ some u
      → u.claims ≡ some identity
      → IsNamed e.tokens.managers auth.manager
      → user_from_claims e.tokens.managers audience none (some identity) ≡ (id, session)
      → id ≢ ""
      → e.tokens.managers.fetch auth.manager id session
          (some (set_of (granted_names auth.authorized_scopes)))
          (requested_of o e auth.authorized_claims)
          (set_of (granted_names auth.authorized_scopes))
        ≡ (some found, true, none)
      → user_info_handler o e "GET" header ≡ answer_of o e (respond_user o e token.claims found)
  unfolding user_info_handler
  user_info_handler-access_token_claims header raw audience id token auth found u identity session
        bearer parsed made logged has_claims named user filled fetched =
      let claims : AccessTokenClaims = access_token_claims e.tokens audience auth in
      let is_own = access_token_claims-IsOwn e.tokens audience auth in
      answer_claims-of_user (get_access_token_claims_from_request o e header) claims found
        (claims_of_header-parsed header raw token bearer parsed ∙ ap ok made)
        (find_user-of_manager claims auth.manager id session found
          (managed_of_record audience auth u identity logged has_claims named)
          (user_of_record audience auth u identity logged has_claims ∙ user) filled
          (rw (is_own.scopes, is_own.request) fetched))
      ∙ ap (λ (c : AccessTokenClaims). answer_of o e (respond_user o e c found)) (sym made)
