-- ===== src/Provider/EndSessionEndpoint.antt =====
-- EndSessionHandler of oidc/provider/handlers.go, from the parsed form on.
pub mod Redirects
pub mod Trusted
use lico.Base.{String, Bool, true, false, Option, none, some, ◌==◌, if◌then◌else◌}
use lico.Errors.{
  GoError, error_text, authentication_bad_request, redirect_error, is_handled_error, oauth2_error,
  authentication_error, login_required_error, failure, Result, ok, err, panic, ◌>>=◌, ◌>>◌,
}
use lico.Jwt.{SigningMethod, Token, Key, IdTokenClaims}
use lico.Oidc.{Oidc}
use lico.Url.{Url, UrlLib}
use lico.Payload.Authentication.{Session}
use lico.Payload.EndSession.{
  EndSessionLib, EndSessionRequest, new_end_session_request, validate_end_session,
  end_session_error, make_redirect_end_session_request_url,
}
use lico.Identity.{ManagerRef}
use lico.Provider.Keys.{ProviderKeys, validate_jwt}
use lico.Provider.Managers.{IdentityManagers, manager_from_session}

-- What the handler uses; `end_session` is the EndSession of each identity manager for the request at hand.
pub record EndSessionEndpoint (V : Type 0) : Type 0 where
  pub lib : EndSessionLib V
  pub urls : UrlLib
  pub keys : ProviderKeys
  pub get_signing_method : String → Option SigningMethod
  pub managers : IdentityManagers
  pub end_session : ManagerRef → EndSessionRequest → Result (Unit {0})

-- What the handler writes: an error page with its status, a redirect with the error that goes into its
-- query, the state as JSON, or nothing.
pub data Reply : Type 0 where
  page : String → String → String → Reply
  found : Url → Option GoError → Reply
  state_json : String → Reply
  nothing : Reply
  crashed : Reply

abbrev pub status_bad_request : String
status_bad_request = "400"

abbrev pub status_forbidden : String
status_forbidden = "403"

abbrev pub status_internal : String
status_internal = "500"

module _ (o : Oidc) {V : Type 0} (e : EndSessionEndpoint V) where
  abbrev pub end_session_key : Token IdTokenClaims → Result Key
  end_session_key token = validate_jwt e.keys e.get_signing_method token

  -- Where the reply goes: a redirect if the request has a URI to go to.
  unfoldable pub redirect_or : Result (Option Url) → Option GoError → Reply → Reply
  redirect_or (ok (some uri)) error reply = found uri error
  redirect_or (ok none) error reply = reply
  redirect_or (err e1) error reply = crashed
  redirect_or panic error reply = crashed

  -- The switch on err's type at `done`.
  unfoldable pub reply_error : EndSessionRequest → GoError → Reply
  unfolding redirect_or make_redirect_end_session_request_url
  reply_error esr (authentication_bad_request id description state) =
      page status_bad_request id description
  reply_error esr (redirect_error id uri) = found uri none
  reply_error esr is_handled_error = nothing
  reply_error esr (oauth2_error id description) =
      redirect_or (make_redirect_end_session_request_url e.urls esr)
        (some (end_session_error esr id description)) (page status_forbidden id "oauth2 error")
  reply_error esr (authentication_error id description state) =
      page status_internal id "well sorry, but there was a problem"
  reply_error esr (login_required_error id uri) =
      page status_internal id "well sorry, but there was a problem"
  reply_error esr (failure text) = page status_internal text "well sorry, but there was a problem"

  -- The reply at `done`.
  unfoldable pub reply_of : EndSessionRequest → Result (Unit {0}) → Reply
  unfolding reply_error redirect_or make_redirect_end_session_request_url
  reply_of esr (err error) = reply_error esr error
  reply_of esr panic = crashed
  reply_of esr (ok done) =
      redirect_or (make_redirect_end_session_request_url e.urls esr) none (state_json esr.state)

  -- The session of the request and the end of it by its manager.
  unfoldable pub end_with_manager : Result (Option Session) → EndSessionRequest → Result (Unit {0})
  end_with_manager session esr = do
    s ← session
    manager ← manager_from_session e.managers s
    e.end_session manager esr

  -- The part of the handler for a request whose hint is read.
  unfoldable pub end_validated :
      Result (Option Session) → EndSessionRequest → Result EndSessionRequest → Reply
  unfolding reply_of end_with_manager
  end_validated session esr (err error) = reply_error esr error
  end_validated session esr panic = crashed
  end_validated session esr (ok hinted) = reply_of hinted (end_with_manager session hinted)

  -- EndSessionHandler, from the form, if it was parsed, and the session of the request
  unfoldable pub end_session_request : Result (Option Session) → Result EndSessionRequest → Reply
  unfolding end_validated validate_end_session
  end_session_request session (err error) =
      page status_bad_request o.invalid_request (error_text error)
  end_session_request session panic = crashed
  end_session_request session (ok esr) =
      end_validated session esr (validate_end_session o e.lib end_session_key esr)

  unfoldable pub end_session_handler : Result V → Result (Option Session) → Reply
  unfolding end_session_request new_end_session_request
  end_session_handler form session =
      end_session_request session (do values ← form; new_end_session_request e.lib e.urls values)
