-- ===== src/Provider/RegistrationEndpoint/Issued.antt =====
-- What the registration endpoint hands out.
use mathlib.Core.Path.{subst}
use lico.Base.{ℕ, String, ◌≡◌, ◌≢◌, refl, sym, Bool, true, Option, none, some}
use lico.Errors.{
  GoError, oauth2_error, authentication_error, authentication_bad_request, redirect_error,
  login_required_error, is_handled_error, failure, Result, ok, err, panic, guard, >>-eq-ok,
  guard-eq-ok,
}
use lico.Oidc.{Oidc}
use lico.Clients.{
  ClientLib, ClientRegistration, RegistrationClaims, DynamicContext, set_dynamic, finish_dynamic,
  start_dynamic, dynamic_claims, make_secret,
}
use lico.Payload.Registration.{
  ClientRegistrationRequest, decode_registration_request, validate_registration,
  client_registration,
}
use lico.Payload.Registration.Accepted.{IsAccepted, validate_registration-IsAccepted}
use lico.Provider.RegistrationEndpoint.{
  ClientRegistrationResponse, RegistrationEndpoint, created, refuse, response_of, answer_dynamic,
  accepted_request, answer_accepted, answer_decoded, registration_handler,
}
use lico.Provider.RegistrationEndpoint.Created.{IsCreated, set_dynamic-IsCreated}

refuse-created : (e : GoError) {response : ClientRegistrationResponse} → refuse e ≢ created response
unfolding refuse
refuse-created (oauth2_error id d) h = cc
refuse-created (authentication_error id d s) h = cc
refuse-created (authentication_bad_request id d s) h = cc
refuse-created (redirect_error id u) h = cc
refuse-created (login_required_error id u) h = cc
refuse-created is_handled_error h = cc
refuse-created (failure t) h = cc

created-request :
    (crr : ClientRegistrationRequest) (r : ClientRegistration × Option GoError)
    (response : ClientRegistrationResponse)
    → answer_dynamic crr r ≡ created response
    → (r.1 ≡ none) × (response ≡ response_of crr r.0)
unfolding answer_dynamic
created-request crr (cr, none) response h = (refl, cc h)
created-request crr (cr, some e) response h = absurd (refuse-created e h)

module _ (lib : ClientLib) (ctx : DynamicContext) where
  set_dynamic_unsigned :
      (c : ClientRegistrationRequest) (sub secret : String)
      (creator : (RegistrationClaims → Result String)) (duration : ℕ) (error : GoError)
      → ctx.creator ≡ some creator
      → ctx.registry ≡ some duration
      → make_secret lib (start_dynamic ctx.now duration (client_registration c)) ctx.random_bytes
        ≡ ok (sub, secret)
      → creator (dynamic_claims sub (start_dynamic ctx.now duration (client_registration c)))
        ≡ err error
      → set_dynamic lib ctx (client_registration c)
        ≡ (start_dynamic ctx.now duration (client_registration c), none)
  unfolding set_dynamic finish_dynamic client_registration
  set_dynamic_unsigned c sub secret creator duration error creates registers makes fails =
      rw (creates, registers, finish_dynamic, makes, fails) refl

module _ (o : Oidc) (e : RegistrationEndpoint) where
  accepted_request-IsAccepted :
      (is_post : Bool) (crr c : ClientRegistrationRequest)
      → accepted_request o e is_post crr ≡ ok c
      → (is_post ≡ true) × IsAccepted o e.urls crr c
  unfolding accepted_request
  accepted_request-IsAccepted is_post crr c h =
      let (posts, h1) = >>-eq-ok (guard is_post _) _ h in
      (guard-eq-ok _ _ posts, validate_registration-IsAccepted o e.urls e.lib crr c h1)

  -- What the answer for accepted data says.
  abbrev pub IsRegistered : ClientRegistrationRequest → ClientRegistrationResponse → Type 0
  IsRegistered c response = (response.request ≡ c) × IsCreated e.client_lib e.context c response

  answer_accepted-IsRegistered :
      (r : Result ClientRegistrationRequest) (response : ClientRegistrationResponse)
      → answer_accepted o e r ≡ created response
      → (c : ClientRegistrationRequest) × (r ≡ ok c) × IsRegistered c response
  unfolding answer_accepted
  answer_accepted-IsRegistered (err error) response h = absurd (refuse-created error h)
  answer_accepted-IsRegistered panic response h = cc
  answer_accepted-IsRegistered (ok c) response h =
      let (fine, same) =
        created-request c (set_dynamic e.client_lib e.context (client_registration c)) response h in
      let issued = set_dynamic-IsCreated e.client_lib e.context c response fine same in
      (c, refl, (cc same, issued))

  answer_decoded-IsRegistered :
      (is_post : Bool) (r : Result ClientRegistrationRequest)
      (response : ClientRegistrationResponse)
      → answer_decoded o e is_post r ≡ created response
      → (crr : ClientRegistrationRequest) × (c : ClientRegistrationRequest) × (r ≡ ok crr)
        × (accepted_request o e is_post crr ≡ ok c)
        × IsRegistered c response
  unfolding answer_decoded
  answer_decoded-IsRegistered is_post (err error) response h = cc
  answer_decoded-IsRegistered is_post panic response h = cc
  answer_decoded-IsRegistered is_post (ok crr) response h =
      let (c, accepts, registered) =
        answer_accepted-IsRegistered (accepted_request o e is_post crr) response h in
      (crr, c, refl, accepts, registered)

  -- A registration that the endpoint answers with status 201 was posted, and its body decodes to a request
  -- that Validate accepts, which the response repeats with its defaults. The client id of the response is
  -- the dynamic prefix and the token that the creator signed for the claims of that request: as subject the
  -- hash of the client's name, and a registration with the metadata of the request that has no id and no
  -- secret and is neither trusted nor insecure. The client secret is the encoded random secret. Or the
  -- creator signs nothing for these claims, and id and secret are empty. Id and secret are issued now, and
  -- expire after the registry's duration, where it has one.
  pub registration_handler-IsIssued :
      (is_post : Bool) (content_type body : String) (response : ClientRegistrationResponse)
      → registration_handler o e is_post content_type body ≡ created response
      → (is_post ≡ true)
        × (crr : ClientRegistrationRequest) × (decode_registration_request e.lib content_type body
            ≡ ok crr)
        × IsAccepted o e.urls crr response.request
        × IsCreated e.client_lib e.context response.request response
  unfolding registration_handler
  registration_handler-IsIssued is_post content_type body response h =
      let (crr, c, decodes, accepts, (same, issued)) =
        answer_decoded-IsRegistered is_post (decode_registration_request e.lib content_type body)
          response h in
      let (posts, accepted) = accepted_request-IsAccepted is_post crr c accepts in
      (
        posts,
        crr,
        decodes,
        subst (λ d. IsAccepted o e.urls crr d) (sym same) accepted,
        subst (λ d. IsCreated e.client_lib e.context d response) (sym same) issued,
      )

  -- Where all checks pass, the secret is made and the creator of the client id fails, the endpoint answers
  -- with status 201 and an empty client id and secret.
  pub registration_handler_unsigned :
      (content_type body sub secret : String) (crr c : ClientRegistrationRequest)
      (creator : (RegistrationClaims → Result String)) (duration : ℕ) (error : GoError)
      → decode_registration_request e.lib content_type body ≡ ok crr
      → validate_registration o e.urls e.lib crr ≡ ok c
      → e.context.creator ≡ some creator
      → e.context.registry ≡ some duration
      → make_secret e.client_lib
          (start_dynamic e.context.now duration (client_registration c))
          e.context.random_bytes
        ≡ ok (sub, secret)
      → creator (dynamic_claims sub (start_dynamic e.context.now duration (client_registration c)))
        ≡ err error
      → registration_handler o e true content_type body
        ≡ created (response_of c (start_dynamic e.context.now duration (client_registration c)))
  unfolding registration_handler answer_decoded accepted_request answer_accepted answer_dynamic
  registration_handler_unsigned content_type body sub secret crr c creator duration error decodes
        accepts creates registers makes fails =
      rw
        (
          decodes,
          accepts,
          set_dynamic_unsigned e.client_lib e.context c sub secret creator duration error creates
              registers makes fails,
        )
        refl
