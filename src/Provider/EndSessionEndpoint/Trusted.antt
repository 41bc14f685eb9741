-- ===== src/Provider/EndSessionEndpoint/Trusted.antt =====
-- What a redirect of EndSessionHandler of oidc/provider/handlers.go rests on, for a session of the
-- identity manager on the identifier and for one of the guest manager.
use lico.Base.{
  String, ◌≡◌, ◌≢◌, refl, sym, ◌⊎◌, Option, none, some, List, ◌==◌, if◌then◌else◌, eq_iff, eq_of_ne,
  arith, Bool-cases, then_of, else_of, inl, inr,
}
use mathlib.Core.Path.{subst}
use lico.Errors.{
  GoError, error_text, authentication_bad_request, redirect_error, is_handled_error, oauth2_error,
  authentication_error, login_required_error, failure, Result, ok, err, panic, ◌>>=◌, >>=-eq-ok,
}
use lico.Jwt.{Token, IdTokenClaims}
use lico.Oidc.{Oidc}
use lico.Url.{Url}
use lico.Identity.{ManagerRef, guest_manager}
use lico.Identity.Guest.{GuestManager, guest_end_session}
use lico.Identity.Identifier.{Identifier, end_session}
use lico.Payload.Authentication.{Session}
use lico.Payload.EndSession.{
  EndSessionParams, EndSessionRequest, validate_end_session, new_end_session_request,
  make_redirect_end_session_request_url, hinted_request,
}
use lico.Provider.Managers.{manager_from_session}
use lico.Provider.EndSessionEndpoint.{
  EndSessionEndpoint, Reply, found, state_json, end_session_key, redirect_or, reply_error, reply_of,
  end_with_manager, end_validated, end_session_request, end_session_handler,
}

module _ (o : Oidc) {V : Type 0} (e : EndSessionEndpoint V) where
  -- The hint of a request is a token that the parser took with the provider's keys.
  abbrev pub IsHinted : EndSessionRequest → Type 0
  IsHinted esr =
      (esr.id_token_hint ≡ none)
      ⊎ ((token : Token IdTokenClaims) × (esr.id_token_hint ≡ some token)
          × (e.lib.parse_hint esr.raw_id_token_hint (end_session_key o e) ≡ ok token))

  hinted_request-hinted :
      (esr hinted : EndSessionRequest) (parsed : Result (Token IdTokenClaims))
      → hinted_request o esr parsed ≡ ok hinted
      → (token : Token IdTokenClaims) × (parsed ≡ ok token)
        × (record esr { id_token_hint = some token } ≡ hinted)
  unfolding hinted_request
  hinted_request-hinted esr hinted (ok token) h = (token, refl, cc h)
  hinted_request-hinted esr hinted (err error) h = cc
  hinted_request-hinted esr hinted panic h = cc

  validate_end_session-IsHinted :
      (esr hinted : EndSessionRequest)
      → esr.id_token_hint ≡ none
      → validate_end_session o e.lib (end_session_key o e) esr ≡ ok hinted
      → IsHinted hinted
  unfolding validate_end_session
  validate_end_session-IsHinted esr hinted unread h =
      elim (Bool-cases (esr.raw_id_token_hint == "")) [
        | inl empty ↦
            let same : esr ≡ hinted = cc (then_of _ empty h) in subst IsHinted same (inl unread)
        | inr given ↦
            let (token, parsed, same) =
              hinted_request-hinted esr hinted
                (e.lib.parse_hint esr.raw_id_token_hint (end_session_key o e))
                (else_of _ given h) in
            subst IsHinted same (inr (token, refl, parsed))
      ]

  redirect_or-found :
      (target : Result (Option Url)) (error error1 : Option GoError) (reply : Reply) (uri : Url)
      → redirect_or o e target error reply ≡ found uri error1
      → (target ≡ ok (some uri)) ⊎ (reply ≡ found uri error1)
  unfolding redirect_or
  redirect_or-found (ok (some uri1)) error error1 reply uri h = inl (cc h)
  redirect_or-found (ok none) error error1 reply uri h = inr h
  redirect_or-found (err error2) error error1 reply uri h = cc
  redirect_or-found panic error error1 reply uri h = cc

  -- What a redirect rests on.
  abbrev pub IsRedirect : EndSessionRequest → Result (Unit {0}) → Url → Type 0
  IsRedirect esr ended uri =
      ((make_redirect_end_session_request_url e.urls esr ≡ ok (some uri))
        × ((ended ≡ ok tt)
            ⊎ ((id : String) × (description : String) × (ended
                  ≡ err (oauth2_error id description)))))
      ⊎ ((id : String) × (ended ≡ err (redirect_error id uri)))

  reply_of-found :
      (esr : EndSessionRequest) (ended : Result (Unit {0})) (uri : Url) (error : Option GoError)
      → reply_of o e esr ended ≡ found uri error
      → IsRedirect esr ended uri
  unfolding reply_of reply_error
  reply_of-found esr (ok tt) uri error h =
      elim (redirect_or-found (make_redirect_end_session_request_url e.urls esr) none error
        (state_json esr.state) uri h) [ inl target ↦ inl (target, inl refl) | inr wrong ↦ cc wrong ]
  reply_of-found esr panic uri error h = cc
  reply_of-found esr (err (oauth2_error id description)) uri error h =
      elim (redirect_or-found (make_redirect_end_session_request_url e.urls esr) _ error _ uri h) [
        | inl target ↦ inl (target, inr (id, description, refl))
        | inr wrong ↦ cc wrong
      ]
  reply_of-found esr (err (redirect_error id target)) uri error h = inr (id, cc h)
  reply_of-found esr (err (authentication_bad_request id d s)) uri error h = cc
  reply_of-found esr (err (authentication_error id d s)) uri error h = cc
  reply_of-found esr (err (login_required_error id target)) uri error h = cc
  reply_of-found esr (err is_handled_error) uri error h = cc
  reply_of-found esr (err (failure text)) uri error h = cc

  hinted_request-err :
      (esr : EndSessionRequest) (parsed : Result (Token IdTokenClaims)) (error : GoError)
      (uri : Url) (error1 : Option GoError)
      → hinted_request o esr parsed ≡ err error
      → reply_error o e esr error ≢ found uri error1
  unfolding hinted_request reply_error
  hinted_request-err esr (ok token) error uri error1 h = cc
  hinted_request-err esr (err e1) error uri error1 h =
      let same : authentication_bad_request o.invalid_request (error_text e1) esr.state ≡ error =
        cc h in
      rw (sym same) (λ b. cc b)
  hinted_request-err esr panic error uri error1 h = cc

  validate_end_session-err :
      (esr : EndSessionRequest) (error : GoError) (uri : Url) (error1 : Option GoError)
      → validate_end_session o e.lib (end_session_key o e) esr ≡ err error
      → reply_error o e esr error ≢ found uri error1
  unfolding validate_end_session
  validate_end_session-err esr error uri error1 h =
      elim (Bool-cases (esr.raw_id_token_hint == "")) [
        | inl empty ↦ let returned = then_of _ empty h in cc returned
        | inr given ↦
            hinted_request-err esr (e.lib.parse_hint esr.raw_id_token_hint (end_session_key o e))
              error uri error1 (else_of _ given h)
      ]

  -- The request of a redirect, and how its session ended.
  abbrev pub IsEnded : Result (Option Session) → Url → Type 0
  IsEnded session uri =
      (esr : EndSessionRequest) × IsHinted esr
      × IsRedirect esr (end_with_manager o e session esr) uri

  end_validated-found :
      (session : Result (Option Session)) (esr : EndSessionRequest)
      → (validated : Result EndSessionRequest) (uri : Url) (error : Option GoError)
      → esr.id_token_hint ≡ none
      → validate_end_session o e.lib (end_session_key o e) esr ≡ validated
      → end_validated o e session esr validated ≡ found uri error
      → IsEnded session uri
  unfolding end_validated
  end_validated-found session esr (err error1) uri error unread validated h =
      absurd (validate_end_session-err esr error1 uri error validated h)
  end_validated-found session esr panic uri error unread validated h = cc
  end_validated-found session esr (ok hinted) uri error unread validated h = (
    hinted,
    validate_end_session-IsHinted esr hinted unread validated,
    reply_of-found hinted (end_with_manager o e session hinted) uri error h,
  )

  end_session_request-found :
      (session : Result (Option Session)) (request : Result EndSessionRequest) (uri : Url)
      → (error : Option GoError)
      → ((esr : EndSessionRequest) → request ≡ ok esr → esr.id_token_hint ≡ none)
      → end_session_request o e session request ≡ found uri error
      → IsEnded session uri
  unfolding end_session_request
  end_session_request-found session (err error1) uri error unread h = cc
  end_session_request-found session panic uri error unread h = cc
  end_session_request-found session (ok esr) uri error unread h =
      end_validated-found session esr _ uri error (unread esr refl) refl h

  new_end_session_request-unread :
      (form : Result V) (esr : EndSessionRequest)
      → (form >>= new_end_session_request e.lib e.urls) ≡ ok esr
      → esr.id_token_hint ≡ none
  unfolding new_end_session_request
  new_end_session_request-unread form esr h =
      let (values, parsed, h1) = >>=-eq-ok form _ h in
      let (params, decoded, same) = >>=-eq-ok (e.lib.decode_schema values) _ h1 in cc same

  pub end_session_handler-found :
      (form : Result V) (session : Result (Option Session)) (uri : Url) (error : Option GoError)
      → end_session_handler o e form session ≡ found uri error
      → IsEnded session uri
  unfolding end_session_handler
  end_session_handler-found form session uri error h =
      end_session_request-found session (form >>= new_end_session_request e.lib e.urls) uri error
        (new_end_session_request-unread form) h

  end_with_manager-managed :
      {manager : ManagerRef} (session : Option Session) (esr : EndSessionRequest)
      → manager_from_session e.managers session ≡ ok manager
      → end_with_manager o e (ok session) esr ≡ e.end_session manager esr
  unfolding end_with_manager
  end_with_manager-managed session esr managed = rw managed refl

  validate_end_session-unhinted :
      (esr : EndSessionRequest)
      → esr.raw_id_token_hint ≡ ""
      → validate_end_session o e.lib (end_session_key o e) esr ≡ ok esr
  unfolding validate_end_session
  validate_end_session-unhinted esr unhinted =
      ground (arith, (eq_iff esr.raw_id_token_hint "").1 unhinted)

  make_redirect-stateless :
      (esr : EndSessionRequest) (uri : Url)
      → esr.post_logout_redirect_uri ≡ some uri
      → e.urls.to_string uri ≢ ""
      → esr.state ≡ ""
      → make_redirect_end_session_request_url e.urls esr ≡ ok (some uri)
  unfolding make_redirect_end_session_request_url
  make_redirect-stateless esr uri target filled stateless =
      target_of esr.post_logout_redirect_uri target
    where
      target_of :
          (target1 : Option Url)
          → target1 ≡ some uri
          → (elim target1 [
            | none ↦ ok none
            | some there ↦
                if e.urls.to_string there == ""
                then ok none
                else if esr.state == ""
                then ok (some there)
                else elim (e.urls.parse (e.urls.to_string there)) [
                  | none ↦ panic
                  | some parsed ↦ ok (some (e.urls.add_query "state" esr.state parsed))
                ]
          ])
            ≡ ok (some uri)
      target_of none same = cc
      target_of (some there) is_uri =
          let same : there ≡ uri = cc is_uri in
          rw (same, eq_of_ne (e.urls.to_string uri) "" filled, (eq_iff esr.state "").1 stateless)
            refl

  reply_of-target :
      (esr : EndSessionRequest) (uri : Url)
      → make_redirect_end_session_request_url e.urls esr ≡ ok (some uri)
      → reply_of o e esr (ok tt) ≡ found uri none
  unfolding reply_of redirect_or
  reply_of-target esr uri target = rw target refl

  -- For a session of the guest manager, whose callbacks succeed, the end session endpoint redirects to any
  -- redirect URI: a request without a hint and a state is sent to the URI of its own text, whatever that
  -- is, if its text is not empty.
  pub end_session_handler-guest :
      (im : GuestManager) (callbacks : List (Result (Unit {0}))) (values : V)
      → (params : EndSessionParams) (session : Option Session) (uri : Url)
      → manager_from_session e.managers session ≡ ok guest_manager
      → ((esr : EndSessionRequest)
          → e.end_session guest_manager esr ≡ guest_end_session o im callbacks)
      → guest_end_session o im callbacks ≡ ok tt
      → e.lib.decode_schema values ≡ ok params
      → params.raw_id_token_hint ≡ ""
      → params.state ≡ ""
      → e.urls.parse params.raw_post_logout_redirect_uri ≡ some uri
      → e.urls.to_string uri ≢ ""
      → end_session_handler o e (ok values) (ok session) ≡ found uri none
  unfolding end_session_handler new_end_session_request end_session_request end_validated
  end_session_handler-guest im callbacks values params session uri managed serves succeed decoded
        unhinted stateless target filled =
      let esr : EndSessionRequest = record {
        params = params;
        id_token_hint = none;
        post_logout_redirect_uri = e.urls.parse params.raw_post_logout_redirect_uri;
      } in
      rw
        (
          decoded,
          validate_end_session-unhinted esr unhinted,
          end_with_manager-managed session esr managed,
          serves esr,
          succeed,
        )
        (reply_of-target esr uri (make_redirect-stateless esr uri target filled stateless))
