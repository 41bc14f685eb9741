-- ===== src/Provider/EndSessionEndpoint/Redirects.antt =====
-- Where EndSessionHandler of oidc/provider/handlers.go sends a user, with the identity manager on the
-- identifier (identity/managers/identifier.go).
use lico.Base.{
  String, ◌≡◌, ◌≢◌, refl, sym, ◌⊎◌, Bool, true, false, Option, none, some, ◌==◌, ◌&&◌, eq_iff,
  arith, Bool-cases, Option-cases, then_of, else_of, inl, inr,
}
use lico.Errors.{
  GoError, authentication_bad_request, oauth2_error, Result, ok, err, panic, guard, >>=-eq-ok,
  >>-eq-ok, >>=-eq-err, deref-eq-err, guard-eq-ok, deref,
}
use lico.Jwt.{Token, IdTokenClaims}
use lico.Oidc.{Oidc}
use lico.Url.{Url}
use lico.Clients.{Details}
use lico.Identity.{User}
use lico.Identity.Identifier.{
  Identifier, hinted_client, looked_up, end_user_session, is_trusted, has_redirect, sign_out_page,
  end_session, redirect_to,
}
use lico.Payload.EndSession.{EndSessionRequest, verify_end_session}

module _ (o : Oidc) (i : Identifier) where
  -- The hint of the request is a token for a trusted client that is allowed the redirect URI.
  abbrev pub HasTrustedHint : EndSessionRequest → Type 0
  HasTrustedHint esr =
      (token : Token IdTokenClaims) × (details : Details) × (esr.id_token_hint ≡ some token)
      × (i.lookup_client token.claims.audience esr.post_logout_redirect_uri ≡ ok details)
      × (details.trusted ≡ true)

  looked_up-trusted :
      (id : String) (found : Result Details) (client : Option (String × Details))
      → looked_up o i id found ≡ ok client
      → is_trusted o i client ≡ true
      → (details : Details) × (found ≡ ok details) × (details.trusted ≡ true)
  unfolding looked_up
  looked_up-trusted id (ok details) none h trusted = cc
  looked_up-trusted id (ok details) (some (id1, details1)) h trusted =
      (details, refl, cc (h, trusted))
  looked_up-trusted id (err e) none h trusted = cc
  looked_up-trusted id (err e) (some c) h trusted = cc
  looked_up-trusted id panic client h trusted = cc

  looked_up-err :
      (id : String) (found : Result Details) {error : GoError} → looked_up o i id found ≢ err error
  unfolding looked_up
  looked_up-err id (ok details) h = cc
  looked_up-err id (err e) h = cc
  looked_up-err id panic h = cc

  guard-oauth2 :
      (b : Bool) (id description id1 description1 state : String)
      → guard b (authentication_bad_request id description state)
        ≢ err (oauth2_error id1 description1)
  guard-oauth2 true id description id1 description1 state h = cc
  guard-oauth2 false id description id1 description1 state h = cc

  hinted_client-trusted :
      (esr : EndSessionRequest) (client : Option (String × Details))
      → hinted_client o i esr ≡ ok client
      → is_trusted o i client ≡ true
      → HasTrustedHint esr
  unfolding hinted_client
  hinted_client-trusted esr client h trusted = elim (Option-cases esr.id_token_hint) [
    | inl absent ↦
        let empty : ok none ≡ ok client = rw absent at h in
        let same : none ≡ client = cc empty in let wrong = rw (sym same) at trusted in cc wrong
    | inr (token, there) ↦
        let (details, looked, is_trusted1) =
          looked_up-trusted token.claims.audience
            (i.lookup_client token.claims.audience esr.post_logout_redirect_uri) client
            (rw there at h) trusted in
        (token, details, there, looked, is_trusted1)
  ]

  hinted_client-err :
      (esr : EndSessionRequest) {error : GoError} → hinted_client o i esr ≢ err error
  unfolding hinted_client looked_up
  hinted_client-err esr h = elim (Option-cases esr.id_token_hint) [
    | inl absent ↦ let returned = rw absent at h in cc returned
    | inr (token, there) ↦
        looked_up-err token.claims.audience
          (i.lookup_client token.claims.audience esr.post_logout_redirect_uri) (rw there at h)
  ]

  verify_end_session-oauth2 :
      (user_id : String) (esr : EndSessionRequest) (id description : String)
      → verify_end_session o user_id esr ≢ err (oauth2_error id description)
  unfolding verify_end_session
  verify_end_session-oauth2 user_id esr id description h = elim (Option-cases esr.id_token_hint) [
    | inl absent ↦ let returned = rw absent at h in cc returned
    | inr (token, there) ↦
        guard-oauth2 (user_id == token.claims.subject) o.invalid_request "userid mismatch" id
          description esr.state (rw there at h)
  ]

  redirect_to-oauth2 :
      (uri : Option Url) (id description : String)
      → redirect_to o i uri ≢ err (oauth2_error id description)
  unfolding redirect_to
  redirect_to-oauth2 none id description h = cc
  redirect_to-oauth2 (some uri) id description h = cc

  -- Of an error with the type of an OAuth2 error, the identifier made it, for a trusted client.
  end_user_session-oauth2 :
      (esr : EndSessionRequest) (client : Option (String × Details)) (u : Option User)
      → (id description : String)
      → end_user_session o i esr client u ≡ err (oauth2_error id description)
      → is_trusted o i client ≡ true
  unfolding end_user_session redirect_to verify_end_session
  end_user_session-oauth2 esr client none id description h = cc
  end_user_session-oauth2 esr none (some u) id description h = cc
  end_user_session-oauth2 esr (some (id1, details)) (some u) id description h =
      elim (>>=-eq-err (verify_end_session o u.subject esr) _ h) [
        | inl failed ↦ absurd (verify_end_session-oauth2 u.subject esr id description failed)
        | inr (done, verified, h1) ↦ elim (Bool-cases details.trusted) [
          | inl trusted ↦ trusted
          | inr untrusted ↦ absurd (redirect_to-oauth2 none id description (rw untrusted at h1))
        ]
      ]

  sign_out_page-oauth2 :
      (client : Option (String × Details)) (id description : String)
      → sign_out_page o i client ≢ err (oauth2_error id description)
  unfolding sign_out_page
  sign_out_page-oauth2 client id description h =
      elim (>>=-eq-err (deref (i.urls.parse i.signed_out_uri)) _ h) [
        | inl nil ↦ deref-eq-err (i.urls.parse i.signed_out_uri) nil
        | inr (uri, parsed, redirected) ↦ cc redirected
      ]

  sign_out_page-ok : (client : Option (String × Details)) → sign_out_page o i client ≢ ok tt
  unfolding sign_out_page
  sign_out_page-ok client h =
      let (uri, parsed, redirected) = >>=-eq-ok (deref (i.urls.parse i.signed_out_uri)) _ h in
      cc redirected

  -- An OAuth2 error of the manager is for a trusted client.
  pub end_session-oauth2 :
      (esr : EndSessionRequest) (id description : String)
      → end_session o i esr ≡ err (oauth2_error id description)
      → HasTrustedHint esr
  unfolding end_session
  end_session-oauth2 esr id description h = elim (>>=-eq-err (hinted_client o i esr) _ h) [
    | inl failed ↦ absurd (hinted_client-err esr failed)
    | inr (client, hinted, h1) ↦
        hinted_client-trusted esr client hinted
          (elim (>>=-eq-err (end_user_session o i esr client i.logon_user) _ h1) [
            | inl failed ↦ end_user_session-oauth2 esr client i.logon_user id description failed
            | inr (done, ended, h2) ↦
                absurd (elim (Bool-cases (is_trusted o i client && has_redirect o i esr)) [
                  | inl allowed ↦ let returned = then_of _ allowed h2 in cc returned
                  | inr asked ↦ sign_out_page-oauth2 client id description (else_of _ asked h2)
                ])
          ])
  ]

  -- A user that is logged on is the subject of the hint.
  abbrev pub IsOwnSession : EndSessionRequest → Type 0
  IsOwnSession esr =
      (i.logon_user ≡ none)
      ⊎ ((u : User) × (token : Token IdTokenClaims) × (i.logon_user ≡ some u)
          × (esr.id_token_hint ≡ some token)
          × (u.subject ≡ token.claims.subject))

  end_user_session-own :
      (esr : EndSessionRequest) (client : Option (String × Details)) (token : Token IdTokenClaims)
      → (u : Option User) → is_trusted o i client ≡ true
      → esr.id_token_hint ≡ some token
      → end_user_session o i esr client u ≡ ok tt
      → (u ≡ none) ⊎ ((v : User) × (u ≡ some v) × (v.subject ≡ token.claims.subject))
  unfolding end_user_session verify_end_session
  end_user_session-own esr client token none trusted hinted h = inl refl
  end_user_session-own esr none token (some u) trusted hinted h = cc
  end_user_session-own esr (some (id, details)) token (some u) trusted hinted h =
      let (verified, rest) = >>-eq-ok (verify_end_session o u.subject esr) _ h in
      let checked = rw hinted at verified in
      inr (
        u,
        refl,
        (eq_iff u.subject token.claims.subject).0
            (guard-eq-ok (u.subject == token.claims.subject) _ checked),
      )

  -- Where the manager ends a session without a redirect of its own, the redirect URI may be used: it is
  -- there, the hint of the request is a token for a trusted client that the lookup takes with that URI,
  -- and a user that is logged on is the subject of the hint.
  pub end_session-trusted :
      (esr : EndSessionRequest)
      → end_session o i esr ≡ ok tt
      → HasTrustedHint esr × IsOwnSession esr × (has_redirect o i esr ≡ true)
  unfolding end_session
  end_session-trusted esr h =
      let (client, hinted, h1) = >>=-eq-ok (hinted_client o i esr) _ h in
      let (ended, h2) = >>-eq-ok (end_user_session o i esr client i.logon_user) _ h1 in
      elim (Bool-cases (is_trusted o i client && has_redirect o i esr)) [
        | inl allowed ↦
            let trusted : is_trusted o i client ≡ true = ground (arith, allowed) in
            let (token, details, there, looked, ok_client) =
              hinted_client-trusted esr client hinted trusted in
            (
              (token, details, there, looked, ok_client),
              elim (end_user_session-own esr client token i.logon_user trusted there ended) [
                | inl nobody ↦ inl nobody
                | inr (u, logged, same) ↦ inr (u, token, logged, there, same)
              ],
              ground (arith, allowed),
            )
        | inr asked ↦ absurd (sign_out_page-ok client (else_of _ asked h2))
      ]
