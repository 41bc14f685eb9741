-- ===== src/Provider/Tokens/Usable.antt =====
-- A refresh token that makeRefreshToken of oidc/provider/tokens.go made, at the token endpoint, and the
-- kinds of tokens that Valid of claims.go tells apart.
use lico.Base.{
  String, ◌≡◌, ◌≢◌, refl, sym, ap, ◌∙◌, Bool, true, Option, none, some, [], eq_iff, eq_refl,
  eq_of_ne, arith,
}
use lico.Base.Dict.{Dict}
use lico.Errors.{oauth2_error, ok}
use lico.Jwt.{Token}
use lico.Oidc.{Oidc}
use lico.Payload.Claims.{Value}
use lico.Payload.Token.{TokenRequest}
use lico.Identity.{
  AuthRecord, User, ManagerRef, identity_manager, guest_manager, make_array_from_bool_map,
  authorize_claims, auth_authorize_scopes,
}
use lico.TokenClaims.{RefreshTokenClaims}
use lico.Provider.Managers.{
  IdentityManagers, get_identity_manager, manager_from_claims, user_from_claims,
}
use lico.Provider.Grants.{
  Grant, granted, refresh, refresh_claims, refresh_user, refreshed_grant, authorized_of,
  approved_or, failed, fake_request,
}
use lico.Provider.Tokens.{TokenProvider, identity_claims_of}
use lico.Provider.Tokens.Refresh.{refresh_token_claims}

module _ (managers : IdentityManagers) where
  -- The manager is found under its name.
  abbrev pub IsNamed : ManagerRef → Type 0
  IsNamed identity_manager = Unit
  IsNamed guest_manager =
      (managers.has_guest ≡ true)
      × (managers.name guest_manager ≢ "")
      × (managers.name guest_manager ≢ managers.name identity_manager)

  pub get_identity_manager-name :
      (manager : ManagerRef)
      → IsNamed manager
      → get_identity_manager managers (managers.name manager) ≡ ok manager
  unfolding get_identity_manager
  get_identity_manager-name identity_manager named =
      ground (arith, eq_refl (managers.name identity_manager))
  get_identity_manager-name guest_manager (there, filled, differ) =
      ground
        (arith, eq_refl (managers.name guest_manager), eq_of_ne _ _ filled, eq_of_ne _ _ differ)

-- The grant of a refresh without scopes for what the manager approves and finds.
abbrev pub grant_for :
    Oidc → IdentityManagers → String → AuthRecord → Dict Bool → AuthRecord → Grant
grant_for o managers audience auth scopes found = record {
  request = fake_request audience;
  auth =
      authorize_claims
        (auth_authorize_scopes o (managers.scopes_supported found.manager) found scopes)
        auth.authorized_claims;
  session = none;
  authorized_scopes = scopes;
}

module _ (o : Oidc) (p : TokenProvider) where
  refresh_user-made :
      (tr : TokenRequest) (audience ref id : String) (auth found : AuthRecord) (u : User)
      (identity : Dict Value)
      → (session : Option String) (backend : Option (Dict Bool)) → auth.user ≡ some u
      → u.claims ≡ some identity
      → IsNamed p.managers auth.manager
      → tr.client_id ≡ audience
      → tr.scopes ≡ []
      → p.managers.approved_scopes auth.manager auth.sub audience ref ≡ ok backend
      → p.managers.fetch auth.manager id session none []
          (approved_or backend (make_array_from_bool_map auth.authorized_scopes))
        ≡ (some found, true, none)
      → refresh_user o p.managers tr (refresh_token_claims p audience auth ref) id session
        ≡ ok (
            grant_for o p.managers audience auth
              (approved_or backend (make_array_from_bool_map auth.authorized_scopes))
              found)
  unfolding refresh_user refresh_token_claims manager_from_claims authorized_of refreshed_grant
  refresh_user-made tr audience ref id auth found u identity session backend logged has_claims named
        mine no_scopes answered fetched =
      rw
        (
          logged,
          has_claims,
          get_identity_manager-name p.managers auth.manager named,
          mine,
          answered,
          no_scopes,
          fetched,
        )
        refl

  refresh_claims-of_user :
      (tr : TokenRequest) (claims : RefreshTokenClaims) (id : String) (session : Option String)
      → (g : Grant) → claims.audience ≡ tr.client_id
      → user_from_claims p.managers claims.audience none claims.identity_claims ≡ (id, session)
      → id ≢ ""
      → refresh_user o p.managers tr claims id session ≡ ok g
      → refresh_claims o p.managers tr claims ≡ granted g
  unfolding refresh_claims
  refresh_claims-of_user tr claims id session g mine user filled done =
      rw ((eq_iff claims.audience tr.client_id).1 mine, user, eq_of_ne id "" filled, done) refl

  refresh-of_token :
      (tr : TokenRequest) (token : Token RefreshTokenClaims)
      → tr.refresh_token ≡ some token
      → refresh o p.managers tr ≡ refresh_claims o p.managers tr token.claims
  unfolding refresh
  refresh-of_token tr token there =
      ap
        (λ found. elim found [
          | none ↦ failed (oauth2_error o.invalid_grant "missing refresh_token")
          | some t ↦ refresh_claims o p.managers tr t.claims
        ])
        there

  -- A refresh token that was made for a user with an id in its identity claims can be used by its client
  -- to get a grant: where the manager, found under its name, answers for the reference and finds the
  -- user, a refresh without scopes is granted, for the scopes that the manager approved or, if it says
  -- nothing, for those that were granted when the token was made, and with the same claims request.
  pub refresh-refresh_token_claims :
      (tr : TokenRequest) (token : Token RefreshTokenClaims)
      → (audience ref id : String) (auth found : AuthRecord) (u : User) (identity : Dict Value)
      → (session : Option String) (backend : Option (Dict Bool)) → auth.user ≡ some u
      → u.claims ≡ some identity
      → id ≢ ""
      → IsNamed p.managers auth.manager
      → tr.refresh_token ≡ some token
      → token.claims ≡ refresh_token_claims p audience auth ref
      → tr.client_id ≡ audience
      → tr.scopes ≡ []
      → user_from_claims p.managers audience none (some identity) ≡ (id, session)
      → p.managers.approved_scopes auth.manager auth.sub audience ref ≡ ok backend
      → p.managers.fetch auth.manager id session none []
          (approved_or backend (make_array_from_bool_map auth.authorized_scopes))
        ≡ (some found, true, none)
      → refresh o p.managers tr
        ≡ granted (
            grant_for o p.managers audience auth
              (approved_or backend (make_array_from_bool_map auth.authorized_scopes))
              found)
  unfolding refresh_token_claims
  refresh-refresh_token_claims tr token audience ref id auth found u identity session backend logged
        has_claims filled named mine made client no_scopes user answered fetched =
      let user_of_claims : user_from_claims p.managers audience none (identity_claims_of auth.user)
          ≡ (id, session) =
        rw (logged, has_claims) user in
      let granted_user =
        refresh_user-made tr audience ref id auth found u identity session backend logged has_claims
          named client no_scopes answered fetched in
      refresh-of_token tr token mine
      ∙ ap (refresh_claims o p.managers tr) made
      ∙ refresh_claims-of_user tr (refresh_token_claims p audience auth ref) id session
          (grant_for o p.managers audience auth
            (approved_or backend (make_array_from_bool_map auth.authorized_scopes)) found)
          (sym client) user_of_claims filled granted_user
