-- ===== src/Provider/TokenEndpoint/Tokens.antt =====
-- Which tokens a grant yields, and the errors of a refresh that the token endpoint loses.
use lico.Base.{
  [], String, ◌≡◌, ◌≢◌, Bool, true, false, Option, none, some, ◌∷◌, refl, arith, eq_iff, Bool-cases,
  Eq-cases, inl, inr, eq_of_ne, then_of, else_of,
}
use lico.Base.Dict.{Dict, get, flag, has}
use lico.Errors.{GoError, oauth2_error, Result, ok, err, ◌>>=◌, >>=-eq-ok}
use lico.Oidc.{Oidc, OidcLaws}
use lico.Jwt.{SigningMethod, Token}
use lico.Clients.{Details}
use lico.Code.{CodeManager}
use lico.Identity.{ManagerRef}
use lico.Payload.Token.{TokenRequest, RefreshTokenClaims}
use lico.Provider.Managers.{manager_from_claims, user_from_claims}
use lico.Provider.Grants.{
  CodeRecord, Grant, lost, approved_or, authorized_of, refresh, refresh_claims, refresh_user,
}
use lico.Provider.Grants.Refresh.{requested_scopes_refused}
use lico.Provider.TokenEndpoint.{
  TokenSuccess, success, no_tokens, Endpoint, read_token_request, take_grant, make_tokens,
  id_token_of, refresh_token_of, token_success, respond, token_handler,
}

module _ (o : Oidc) {V : Type 0} (e : Endpoint V) where
  id_token_of-made :
      (g : Grant) (access : String) (method : Option SigningMethod) (i : String)
      → id_token_of o e g access method ≡ ok i
      → i ≢ ""
      → flag o.response_type_id_token g.request.response_types ≡ false
  unfolding id_token_of
  id_token_of-made g access method i h n =
      elim (Bool-cases (flag o.response_type_id_token g.request.response_types)) [
        | inl asked ↦ absurd (n (ground arith))
        | inr unasked ↦ unasked
      ]

  refresh_token_of-made :
      (g : Grant) (r : String)
      → refresh_token_of o e g ≡ ok r
      → r ≢ ""
      → flag o.scope_offline_access g.authorized_scopes ≡ true
  unfolding refresh_token_of
  refresh_token_of-made g r h n =
      elim (Bool-cases (flag o.scope_offline_access g.authorized_scopes)) [
        | inl given ↦ given
        | inr ungranted ↦ absurd (n (ground arith))
      ]

  token_success_fields :
      (access i r : String)
      → ((token_success o e access i r).access_token ≡ access)
        × ((token_success o e access i r).id_token ≡ i)
        × ((token_success o e access i r).refresh_token ≡ r)
  unfolding token_success
  token_success_fields access i r = ground (arith, eq_iff access "")

  make_tokens_of_code :
      (tr : TokenRequest) (method : Option SigningMethod) (g : Grant) (t : TokenSuccess)
      → tr.grant_type ≡ o.grant_type_authorization_code
      → make_tokens o e tr method g ≡ ok t
      → (access : String) × (i : String) × (r : String) × (e.maker.make_access_token
            g.request.client_id g.auth method
          ≡ ok access)
        × (id_token_of o e g access method ≡ ok i)
        × (refresh_token_of o e g ≡ ok r)
        × (t ≡ token_success o e access i r)
  unfolding make_tokens
  make_tokens_of_code tr method g t code h =
      let (access, made, h1) =
        >>=-eq-ok (e.maker.make_access_token g.request.client_id g.auth method) _ h in
      let h2 = then_of _ ((eq_iff _ _).1 code) h1 in
      let (i, identified, h3) = >>=-eq-ok (id_token_of o e g access method) _ h2 in
      let (r, refreshed, h4) = >>=-eq-ok (refresh_token_of o e g) _ h3 in
      (access, i, r, made, identified, refreshed, cc h4)

  make_tokens_of_other :
      (tr : TokenRequest) (method : Option SigningMethod) (g : Grant) (t : TokenSuccess)
      → tr.grant_type ≢ o.grant_type_authorization_code
      → make_tokens o e tr method g ≡ ok t
      → (access : String) × (e.maker.make_access_token g.request.client_id g.auth method
          ≡ ok access)
        × (t ≡ token_success o e access "" "")
  unfolding make_tokens
  make_tokens_of_other tr method g t other h =
      let (access, made, h1) =
        >>=-eq-ok (e.maker.make_access_token g.request.client_id g.auth method) _ h in
      (access, made, cc (else_of _ (eq_of_ne _ _ other) h1))

  -- The tokens of a grant: the access token that the maker made; an ID token only for a code whose
  -- request did not ask for one with the code; a refresh token only for a code whose grant has the scope
  -- offline_access.
  pub make_tokens_sound :
      (tr : TokenRequest) (method : Option SigningMethod) (g : Grant) (t : TokenSuccess)
      → make_tokens o e tr method g ≡ ok t
      → (e.maker.make_access_token g.request.client_id g.auth method ≡ ok t.access_token)
        × (t.id_token ≢ ""
            → (tr.grant_type ≡ o.grant_type_authorization_code)
              × (flag o.response_type_id_token g.request.response_types ≡ false))
        × (t.refresh_token ≢ ""
            → (tr.grant_type ≡ o.grant_type_authorization_code)
              × (flag o.scope_offline_access g.authorized_scopes ≡ true))
  make_tokens_sound tr method g t h =
      elim (Eq-cases tr.grant_type o.grant_type_authorization_code) [
        | inl code ↦
            let (access, i, r, made, identified, refreshed, same) =
              make_tokens_of_code tr method g t code h in
            let (a1, i1, r1) = token_success_fields access i r in
            (
              cc (made, same, a1),
              (λ n. (
                code,
                id_token_of-made g access method i identified (λ b. n (cc (same, i1, b))),
              )),
              (λ n. (code, refresh_token_of-made g r refreshed (λ b. n (cc (same, r1, b))))),
            )
        | inr other ↦
            let (access, made, same) = make_tokens_of_other tr method g t other h in
            let (a1, i1, r1) = token_success_fields access "" "" in
            (
              cc (made, same, a1),
              (λ n. absurd (n (cc (same, i1)))),
              (λ n. absurd (n (cc (same, r1)))),
            )
      ]

  authorized_of_refused :
      (approved scopes : Dict Bool) (scope : String)
      → has scope scopes ≡ true
      → flag scope approved ≡ false
      → authorized_of o approved scopes
        ≡ err (oauth2_error o.insufficient_scope "insufficient scope")
  unfolding authorized_of get
  authorized_of_refused approved [] scope asked unapproved = cc
  authorized_of_refused approved (s ∷ scopes) scope asked unapproved =
      requested_scopes_refused o approved (s ∷ scopes) [] scope asked unapproved

  refresh_user_refused :
      (tr : TokenRequest) (claims : RefreshTokenClaims) (user_id : String) (session : Option String)
      → (manager : ManagerRef) (backend : Option (Dict Bool)) (scope : String)
      → manager_from_claims e.managers claims.identity_provider claims.identity_claims ≡ ok manager
      → e.managers.approved_scopes manager claims.subject tr.client_id claims.ref ≡ ok backend
      → has scope tr.scopes ≡ true
      → flag scope (approved_or backend claims.approved_scopes_list) ≡ false
      → refresh_user o e.managers tr claims user_id session
        ≡ err (oauth2_error o.insufficient_scope "insufficient scope")
  unfolding refresh_user
  refresh_user_refused tr claims user_id session manager backend scope managed answered asked
        unapproved =
      rw
        (
          managed,
          ◌>>=◌,
          answered,
          ◌>>=◌,
          authorized_of_refused (approved_or backend claims.approved_scopes_list) tr.scopes scope
              asked unapproved,
        )
        refl

  refresh_claims_lost :
      (tr : TokenRequest) (claims : RefreshTokenClaims) (error : GoError)
      → claims.audience ≡ tr.client_id
      → (user_from_claims e.managers claims.audience none claims.identity_claims).0 ≢ ""
      → refresh_user o e.managers tr claims
          (user_from_claims e.managers claims.audience none claims.identity_claims).0
          (user_from_claims e.managers claims.audience none claims.identity_claims).1
        ≡ err error
      → refresh_claims o e.managers tr claims ≡ lost error
  unfolding refresh_claims
  refresh_claims_lost tr claims error mine named failing =
      rw ((eq_iff claims.audience tr.client_id).1 mine, eq_of_ne _ _ named, failing) refl

  take_grant_of_refresh :
      OidcLaws o
      → (cm : CodeManager CodeRecord) (tr : TokenRequest)
      → tr.grant_type ≡ o.grant_type_refresh_token
      → take_grant o e cm tr ≡ (cm, refresh o e.managers tr)
  unfolding take_grant
  take_grant_of_refresh laws cm tr grant = ground (
    arith,
    laws.grants_differ,
    eq_iff tr.grant_type o.grant_type_authorization_code,
    eq_iff tr.grant_type o.grant_type_refresh_token,
  )

  refresh_unapproved :
      (tr : TokenRequest) (token : Token RefreshTokenClaims)
      → (manager : ManagerRef) (backend : Option (Dict Bool)) (scope : String)
      → tr.refresh_token ≡ some token
      → token.claims.audience ≡ tr.client_id
      → (user_from_claims e.managers token.claims.audience none token.claims.identity_claims).0 ≢ ""
      → manager_from_claims e.managers token.claims.identity_provider token.claims.identity_claims
        ≡ ok manager
      → e.managers.approved_scopes manager token.claims.subject tr.client_id token.claims.ref
        ≡ ok backend
      → has scope tr.scopes ≡ true
      → flag scope (approved_or backend token.claims.approved_scopes_list) ≡ false
      → refresh o e.managers tr ≡ lost (oauth2_error o.insufficient_scope "insufficient scope")
  unfolding refresh refresh_claims refresh_user
  refresh_unapproved tr token manager backend scope there mine named managed answered asked
        unapproved =
      rw there (
        refresh_claims_lost tr token.claims _ mine named (
          refresh_user_refused tr token.claims _ _ manager backend scope managed answered asked
            unapproved))

  -- A refresh of a client's own token, with a user, that asks for a scope that is not approved, by the
  -- manager or, if that says nothing, by the token, is answered with the status of success and without
  -- any token, not with insufficient_scope; the table of codes stays as it was.
  pub token_handler_unapproved :
      OidcLaws o
      → (cm : CodeManager CodeRecord) (method : String) (form : Result V) (header : String)
      → (tr : TokenRequest) (details : Details) (token : Token RefreshTokenClaims)
      → (manager : ManagerRef) (backend : Option (Dict Bool)) (scope : String)
      → read_token_request o e method form header ≡ ok (tr, details)
      → tr.grant_type ≡ o.grant_type_refresh_token
      → tr.refresh_token ≡ some token
      → token.claims.audience ≡ tr.client_id
      → (user_from_claims e.managers token.claims.audience none token.claims.identity_claims).0 ≢ ""
      → manager_from_claims e.managers token.claims.identity_provider token.claims.identity_claims
        ≡ ok manager
      → e.managers.approved_scopes manager token.claims.subject tr.client_id token.claims.ref
        ≡ ok backend
      → has scope tr.scopes ≡ true
      → flag scope (approved_or backend token.claims.approved_scopes_list) ≡ false
      → token_handler o e cm method form header ≡ (cm, success no_tokens)
  unfolding token_handler
  token_handler_unapproved laws cm method form header tr details token manager backend scope read
        grant there mine named managed answered asked unapproved =
      rw
        (
          read,
          take_grant_of_refresh laws cm tr grant,
          refresh_unapproved tr token manager backend scope there mine named managed answered asked
              unapproved,
        )
        (unfold respond in refl)
