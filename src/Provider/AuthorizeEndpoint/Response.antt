-- ===== src/Provider/AuthorizeEndpoint/Response.antt =====
-- The answer of the authorize endpoint: its tokens, and the code that it keeps.
use lico.Base.{
  String, ◌≡◌, ◌≢◌, Bool, true, false, Option, some, ◌&&◌, refl, arith, inl, inr, Bool-cases,
  else_of,
}
use lico.Base.Dict.{flag, has}
use lico.Errors.{
  GoError, oauth2_error, authentication_error, authentication_bad_request, redirect_error,
  login_required_error, is_handled_error, failure, Result, ok, err, panic, >>=-eq-ok,
}
use mathlib.Core.Path.{subst}
use lico.Url.{Url}
use lico.Oidc.{Oidc}
use lico.Code.{CodeManager, create, pop}
use lico.Code.Life.{pop-create}
use lico.Identity.{AuthRecord}
use lico.Payload.Authentication.{AuthenticationRequest, Session}
use lico.Provider.Grants.{CodeRecord}
use lico.Provider.AuthorizeEndpoint.{
  Authorizer, Surroundings, AuthenticationSuccess, found_success, authorize_error, success_of,
  access_token_of, id_token_for, make_success, reply_of, respond_with,
}

pub authorize_error-ne-success :
    (ar : AuthenticationRequest) (error : GoError) (uri : Option Url) (t : AuthenticationSuccess)
    (fragment : Bool)
    → authorize_error ar error ≢ found_success uri t fragment
unfolding authorize_error
authorize_error-ne-success ar (oauth2_error id description) uri t fragment = cc
authorize_error-ne-success ar (authentication_error id description state) uri t fragment = cc
authorize_error-ne-success ar (authentication_bad_request id description state) uri t fragment = cc
authorize_error-ne-success ar (redirect_error id to) uri t fragment = cc
authorize_error-ne-success ar (login_required_error id to) uri t fragment = cc
authorize_error-ne-success ar is_handled_error uri t fragment = cc
authorize_error-ne-success ar (failure text) uri t fragment = cc

-- The tokens of an answer are those that the response type asks for; the ID token also wants the
-- user's grant of openid.
pub record IsAnswerTo (o : Oidc) (ar : AuthenticationRequest) (auth : AuthRecord)
    (t : AuthenticationSuccess) : Type 0 where
  pub same_state : t.state ≡ ar.state
  pub access_asked : t.access_token ≢ "" → has o.response_type_token ar.response_types ≡ true
  pub id_token_asked :
      t.id_token ≢ ""
      → (has o.response_type_id_token ar.response_types ≡ true)
        × (flag o.scope_openid auth.authorized_scopes ≡ true)
  pub code_asked : t.code ≢ "" → has o.response_type_code ar.response_types ≡ true

module _ (o : Oidc) {V : Type 0} (e : Authorizer V) where
  access_token_of-asked :
      (ar : AuthenticationRequest) (auth : AuthRecord) (a : String)
      → access_token_of o e ar auth ≡ ok a
      → a ≢ ""
      → has o.response_type_token ar.response_types ≡ true
  unfolding access_token_of
  access_token_of-asked ar auth a h n =
      elim (Bool-cases (has o.response_type_token ar.response_types)) [
        | inl asked ↦ asked
        | inr unasked ↦ absurd (n (cc (else_of _ unasked h)))
      ]

  id_token_for-asked :
      (ar : AuthenticationRequest) (auth : AuthRecord) (session : Session) (access code i : String)
      → id_token_for o e ar auth session access code ≡ ok i
      → i ≢ ""
      → (has o.response_type_id_token ar.response_types ≡ true)
        × (flag o.scope_openid auth.authorized_scopes ≡ true)
  unfolding id_token_for
  id_token_for-asked ar auth session access code i h n =
      elim (Bool-cases (
        flag o.scope_openid auth.authorized_scopes
        && has o.response_type_id_token ar.response_types)) [
          | inl asked ↦ ground arith
          | inr unasked ↦ absurd (n (cc (else_of _ unasked h)))
        ]

  make_success-IsAnswerTo :
      (ar : AuthenticationRequest) (auth : AuthRecord) (session : Session) (code : String)
      (t : AuthenticationSuccess)
      → make_success o e ar auth session code ≡ ok t
      → (code ≢ "" → has o.response_type_code ar.response_types ≡ true)
      → IsAnswerTo o ar auth t × (t.code ≡ code)
  unfolding make_success
  make_success-IsAnswerTo ar auth session code t h coded =
      let (access, made, h1) = >>=-eq-ok (access_token_of o e ar auth) _ h in
      let (id_token, identified, h2) =
        >>=-eq-ok (id_token_for o e ar auth session access code) _ h1 in
      let same : success_of o e ar auth code access id_token ≡ t = cc h2 in
      subst (λ r. IsAnswerTo o ar auth r × (r.code ≡ code)) same
        (unfold success_of in
          (
            record {
              same_state = refl;
              access_asked = access_token_of-asked ar auth access made;
              id_token_asked = id_token_for-asked ar auth session access code id_token identified;
              code_asked = coded;
            },
            refl,
          ))

  -- An answer's code is in the table, for the request, the user and the session of the answer.
  abbrev pub IsKept :
      CodeManager CodeRecord
      → AuthenticationRequest
      → AuthRecord
      → Session
      → AuthenticationSuccess
      → Type 0
  IsKept cm ar auth session t =
      t.code ≢ ""
      → (pop t.code cm).0 ≡ some (record { request = ar; auth = auth; session = some session })

  reply_of-success :
      (ar : AuthenticationRequest) (m : Result AuthenticationSuccess) (uri : Option Url)
      (t : AuthenticationSuccess) (fragment : Bool)
      → reply_of o e ar m ≡ found_success uri t fragment
      → (m ≡ ok t) × (uri ≡ ar.redirect_uri)
  reply_of-success ar (ok a) uri t fragment h = (cc h, cc h)
  reply_of-success ar (err error) uri t fragment h =
      absurd (authorize_error-ne-success ar error uri t fragment h)
  reply_of-success ar panic uri t fragment h = cc

  respond_with_code :
      (s : Surroundings) (cm : CodeManager CodeRecord) (ar : AuthenticationRequest)
      (auth : AuthRecord) (session : Session) (cookie : Option String)
      → has o.response_type_code ar.response_types ≡ true
      → respond_with o e s cm ar auth session cookie ≡ (
        create s.code s.now (record { request = ar; auth = auth; session = some session }) cm,
        cookie,
        reply_of o e ar (make_success o e ar auth session s.code),
      )
  unfolding respond_with
  respond_with_code s cm ar auth session cookie asked = rw asked refl

  respond_without_code :
      (s : Surroundings) (cm : CodeManager CodeRecord) (ar : AuthenticationRequest)
      (auth : AuthRecord) (session : Session) (cookie : Option String)
      → has o.response_type_code ar.response_types ≡ false
      → respond_with o e s cm ar auth session cookie
        ≡ (cm, cookie, reply_of o e ar (make_success o e ar auth session ""))
  unfolding respond_with
  respond_without_code s cm ar auth session cookie unasked = rw unasked refl

  pub respond_with-success :
      (s : Surroundings) (cm : CodeManager CodeRecord) (ar : AuthenticationRequest)
      (auth : AuthRecord) (session : Session) (cookie : Option String)
      → (uri : Option Url) (t : AuthenticationSuccess) (fragment : Bool)
      → (respond_with o e s cm ar auth session cookie).2 ≡ found_success uri t fragment
      → IsAnswerTo o ar auth t
        × (uri ≡ ar.redirect_uri)
        × IsKept (respond_with o e s cm ar auth session cookie).0 ar auth session t
  respond_with-success s cm ar auth session cookie uri t fragment h =
      elim (Bool-cases (has o.response_type_code ar.response_types)) [
        | inl asked ↦
            let shape = respond_with_code s cm ar auth session cookie asked in
            let (made, same_uri) =
              reply_of-success ar (make_success o e ar auth session s.code) uri t fragment
                (cc (shape, h)) in
            let (answer, same_code) =
              make_success-IsAnswerTo ar auth session s.code t made (λ n. asked) in
            (answer, same_uri, λ n. rw (shape, same_code) (pop-create s.code s.now _ cm).0)
        | inr unasked ↦
            let shape = respond_without_code s cm ar auth session cookie unasked in
            let (made, same_uri) =
              reply_of-success ar (make_success o e ar auth session "") uri t fragment
                (cc (shape, h)) in
            let (answer, same_code) =
              make_success-IsAnswerTo ar auth session "" t made (λ n. absurd (n refl)) in
            (answer, same_uri, λ n. absurd (n same_code))
      ]
