-- ===== src/Provider/Managers.antt =====
-- oidc/provider/identity.go, getUserIDAndSessionRefFromClaims of session.go, and the interfaces of the
-- parts that the endpoints call: identity managers (identity/manager.go) and the making of tokens.
pub mod Choice
use lico.Base.{
  ℕ, String, Bool, true, false, Option, none, some, List, [], ◌∷◌, ◌==◌, ◌||◌, ◌&&◌, not,
  if◌then◌else◌,
}
use lico.Base.Dict.{Dict, get}
use lico.Errors.{GoError, failure, Result, ok, err, panic, ◌>>=◌, ◌>>◌, guard}
use lico.TokenClaims.{identified_user_id_claim, identified_user_claim}
use lico.Jwt.{SigningMethod}
use lico.Payload.Claims.{ClaimsRequestMap, Value, text}
use lico.Payload.Authentication.{AuthenticationRequest, Session}
use lico.Identity.{ManagerRef, identity_manager, guest_manager, AuthRecord, get_session_ref}

-- identity.Manager, as the endpoints call it. `fetch` returns the record, if there is one, whether it
-- was found, and an error.
pub record IdentityManagers : Type 0 where
  pub has_guest : Bool
  pub name : ManagerRef → String
  pub scopes_supported : ManagerRef → Dict Bool → List String
  pub authenticate : AuthenticationRequest → Result AuthRecord
  pub authorize : ManagerRef → AuthenticationRequest → AuthRecord → Result AuthRecord
  pub approve_scopes : ManagerRef → String → String → Dict Bool → Result String
  pub approved_scopes : ManagerRef → String → String → String → Result (Option (Dict Bool))
  pub fetch :
      ManagerRef
      → String
      → Option String
      → Option (Dict Bool)
      → List ClaimsRequestMap
      → Dict Bool
      → Option AuthRecord × Bool × Option GoError

-- makeAccessToken, makeIDToken and makeRefreshToken; a missing signing method is nil.
pub record TokenMaker : Type 0 where
  pub make_access_token : String → AuthRecord → Option SigningMethod → Result String
  pub make_id_token :
      AuthenticationRequest
      → AuthRecord
      → Option Session
      → String
      → String
      → Option SigningMethod
      → Result String
  pub make_refresh_token : String → AuthRecord → Option SigningMethod → Result String

module _ (managers : IdentityManagers) where
  -- getIdentityManager
  unfoldable pub get_identity_manager : String → Result ManagerRef
  get_identity_manager provider =
      if provider == "" || provider == managers.name identity_manager
      then ok identity_manager
      else if managers.has_guest && provider == managers.name guest_manager
      then ok guest_manager
      else err (failure "identity provider mismatch")

  -- getIdentityManagerFromClaims
  unfoldable pub manager_from_claims : String → Option (Dict Value) → Result ManagerRef
  manager_from_claims provider none = ok identity_manager
  manager_from_claims provider (some claims) = get_identity_manager provider

  -- getIdentityManagerFromSession
  unfoldable pub manager_from_session : Option Session → Result ManagerRef
  manager_from_session none = ok identity_manager
  manager_from_session (some session) = get_identity_manager session.provider

  -- s, _ := claims[name].(string)
  abbrev pub text_claim : String → Dict Value → String
  text_claim name claims = elim (get name claims) [ some (text s) ↦ s | _ ↦ "" ]

  -- The session reference of a user whose claims name no session.
  abbrev made_session_ref : String → String → Dict Value → Option String
  made_session_ref audience user_id claims =
      let user : String = text_claim identified_user_claim claims in
      get_session_ref (managers.name identity_manager) audience
        (if user == "" then user_id else user)

  -- getUserIDAndSessionRefFromClaims: the audience of the standard claims, the session id of the session
  -- claims, if there are any, and the identity claims.
  unfoldable pub user_from_claims :
      String → Option String → Option (Dict Value) → String × Option String
  user_from_claims audience session none = ("", none)
  user_from_claims audience session (some claims) =
      let user_id : String = text_claim identified_user_id_claim claims in
      if user_id == "" then ("", none) else (
        user_id,
        elim session [
          | none ↦ made_session_ref audience user_id claims
          | some id ↦ if id == "" then made_session_ref audience user_id claims else some id
        ],
      )
