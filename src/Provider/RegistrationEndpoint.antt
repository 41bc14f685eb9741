-- ===== src/Provider/RegistrationEndpoint.antt =====
-- RegistrationHandler of oidc/provider/handlers.go.
pub mod Created
pub mod Issued
use lico.Base.{ℕ, String, Bool, true, false, Option, none, some}
use lico.Errors.{GoError, error_text, oauth2_error, Result, ok, err, panic, ◌>>=◌, ◌>>◌, guard}
use lico.Oidc.{Oidc}
use lico.Url.{UrlLib}
use lico.Clients.{ClientLib, ClientRegistration, DynamicContext, set_dynamic}
use lico.Payload.Registration.{
  ClientRegistrationRequest, RegistrationLib, decode_registration_request, validate_registration,
  client_registration,
}

-- ClientRegistrationResponse
pub record ClientRegistrationResponse : Type 0 where
  pub client_id : String
  pub client_secret : String
  pub client_id_issued_at : ℕ
  pub client_secret_expires_at : ℕ
  pub request : ClientRegistrationRequest

-- What the endpoint uses: other packages' functions, and what SetDynamic reads at the time of the call.
pub record RegistrationEndpoint : Type 0 where
  pub urls : UrlLib
  pub lib : RegistrationLib
  pub client_lib : ClientLib
  pub context : DynamicContext

-- What the handler writes: the registration with status 201, an error as JSON with status 400, or a page.
pub data Reply : Type 0 where
  created : ClientRegistrationResponse → Reply
  refused : GoError → Reply
  page : ℕ → String → String → Reply
  crashed : Reply

-- The switch on the error at `done`.
unfoldable pub refuse : GoError → Reply
refuse (oauth2_error id description) = refused (oauth2_error id description)
refuse e = page 500 (error_text e) "well sorry, but there was a problem"

abbrev pub response_of : ClientRegistrationRequest → ClientRegistration → ClientRegistrationResponse
response_of crr cr = record {
  client_id = cr.id;
  client_secret = cr.secret;
  client_id_issued_at = cr.id_issued_at;
  client_secret_expires_at = cr.secret_expires_at;
  request = crr;
}

-- The answer for what SetDynamic leaves and returns.
unfoldable pub answer_dynamic :
    ClientRegistrationRequest → ClientRegistration × Option GoError → Reply
unfolding refuse
answer_dynamic crr (cr, none) = created (response_of crr cr)
answer_dynamic crr (cr, some e) = refuse e

module _ (o : Oidc) (e : RegistrationEndpoint) where
  -- The checks up to SetDynamic.
  unfoldable pub accepted_request :
      Bool → ClientRegistrationRequest → Result ClientRegistrationRequest
  unfolding validate_registration
  accepted_request is_post crr = do
    guard is_post (oauth2_error o.invalid_request "request must be sent with POST")
    validate_registration o e.urls e.lib crr

  unfoldable pub answer_accepted : Result ClientRegistrationRequest → Reply
  unfolding refuse answer_dynamic client_registration set_dynamic
  answer_accepted (ok crr) =
      answer_dynamic crr (set_dynamic e.client_lib e.context (client_registration crr))
  answer_accepted (err error) = refuse error
  answer_accepted panic = crashed

  unfoldable pub answer_decoded : Bool → Result ClientRegistrationRequest → Reply
  unfolding answer_accepted accepted_request
  answer_decoded is_post (ok crr) = answer_accepted (accepted_request is_post crr)
  answer_decoded is_post (err error) = page 400 o.invalid_request (error_text error)
  answer_decoded is_post panic = crashed

  -- RegistrationHandler, on the method, the content type and the body
  unfoldable pub registration_handler : Bool → String → String → Reply
  unfolding answer_decoded decode_registration_request
  registration_handler is_post content_type body =
      answer_decoded is_post (decode_registration_request e.lib content_type body)
