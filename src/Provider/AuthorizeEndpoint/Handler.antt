-- ===== src/Provider/AuthorizeEndpoint/Handler.antt =====
-- What the authorize endpoint's handler has done when its answer is a success.
use lico.Base.{◌≡◌, Option, some}
use lico.Errors.{Result, ok, ◌>>=◌}
use lico.Url.{Url}
use lico.Oidc.{Oidc}
use lico.Code.{CodeManager}
use lico.Identity.{AuthRecord}
use lico.Payload.Authentication.{AuthenticationRequest, Session, new_authentication_request}
use lico.Payload.Validation.Sound.{IsValidated}
use lico.Provider.Keys.{validate_jwt}
use lico.Provider.Grants.{CodeRecord}
use lico.Provider.AuthorizeEndpoint.{
  Authorizer, Surroundings, AuthenticationSuccess, request_object_key, prepare_request,
  authorize_user,
}
use lico.Provider.AuthorizeEndpoint.Response.{IsAnswerTo, IsKept}

module _ (o : Oidc) {V : Type 0} (e : Authorizer V) where
  -- What a successful answer of the handler comes from: a request that was decoded and that Validate
  -- accepted, whose user was authenticated and authorized; the answer goes to the redirect URI of the
  -- request, has only tokens that were asked for, and its code is in the table for this request and user.
  pub record IsAuthorized (s : Surroundings) (form : Result V) (uri : Option Url)
      (t : AuthenticationSuccess) (table : CodeManager CodeRecord) : Type 0 where
    pub decoded : AuthenticationRequest
    pub valid : AuthenticationRequest
    pub ar : AuthenticationRequest
    pub auth : AuthRecord
    pub session : Session
    pub read :
        (form >>= λ values.
        new_authentication_request o e.urls e.request_lib values (some (request_object_key o e)))
        ≡ ok decoded
    pub validated :
        IsValidated o e.request_lib (some (validate_jwt e.keys e.get_signing_method)) decoded valid
    pub prepared : prepare_request o e s valid ≡ ok ar
    pub user : authorize_user o e ar ≡ ok auth
    pub answer : IsAnswerTo o ar auth t
    pub same_uri : uri ≡ ar.redirect_uri
    pub kept : IsKept o e table ar auth session t
