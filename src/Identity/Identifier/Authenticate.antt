-- ===== src/Identity/Identifier/Authenticate.antt =====
-- Authenticate of identity/managers/identifier.go.
use lico.Base.{
  ℕ, String, Bool, true, false, Option, none, some, List, [], ◌∷◌, ◌==◌, ◌&&◌, ◌||◌, not,
  if◌then◌else◌,
}
use Prim.Native.Char.{Char, code}
use lico.Base.{nat_eq}
use lico.Base.Dict.{Dict, get, put, flag}
use lico.Errors.{GoError, Result, ok, err, panic, ◌>>=◌, ◌>>◌, guard, deref, oauth2_error}
use lico.Oidc.{Oidc}
use lico.Payload.Claims.{ClaimNames}
use lico.Payload.Authentication.{AuthenticationRequest, new_error}
use lico.Payload.Validation.{verify_user}
use lico.Identity.{AuthRecord, User}
use lico.Identity.Identifier.{fetch}
use lico.Identity.Identifier.Authorize.{SignIn, Authorized, granted, sent, add_claims_scope}

-- identifier.MustBeSignedIn
abbrev pub must_be_signed_in : String
must_be_signed_in = "must"

-- What the manager has for the request at hand: the form values that it reads, the identifier's user of
-- the logon cookie for a maximal age, the next manager's Authenticate, and the identifier's methods of a
-- user: LockedScopes, Scopes and LoggedOn.
pub record Logon (Q : Type 0) : Type 0 where
  pub sign_in : SignIn Q
  pub form_error : String
  pub form_error_description : String
  pub mode : String
  pub logon_user : ℕ → Option User
  pub next : Option (AuthenticationRequest → Result AuthRecord)
  pub locked_scopes : User → Option (List String)
  pub user_scopes : User → Option (List String)
  pub logged_on : User → Option ℕ

abbrev pub is_bang : Char → Bool
is_bang c = nat_eq (code c) b'!'

-- strings.TrimLeft(s, "!")
unfoldable pub trim_bangs : String → String
trim_bangs String.[] = String.[]
trim_bangs (String.◌∷◌ c s) = let rest = trim_bangs s in if is_bang c then rest else String.◌∷◌ c s

-- A locked scope as an entry of the required scopes.
unfoldable pub require_scope : String → Dict Bool → Dict Bool
unfolding trim_bangs
require_scope String.[] m = put String.[] true m
require_scope (String.◌∷◌ c s) m =
    if is_bang c then put (trim_bangs s) false m else put (String.◌∷◌ c s) true m

unfoldable pub require_scopes : List String → Dict Bool → Dict Bool
unfolding require_scope
require_scopes [] m = m
require_scopes (scope ∷ scopes) m = require_scopes scopes (require_scope scope m)

-- RequiredScopes: a nil map has no entries
unfoldable pub required_scopes : Option (List String) → Dict Bool
unfolding require_scopes
required_scopes none = []
required_scopes (some locked) = require_scopes locked []

-- The required scopes injected into those of a request.
unfoldable pub inject_required : Dict Bool → Dict Bool → Dict Bool
inject_required [] m = m
inject_required ((scope, b) ∷ required) m = inject_required required (put scope b m)

-- The scopes of the backend, without those that are known and not enabled.
unfoldable pub expand_scopes : Dict Bool → List String → Dict Bool → Dict Bool
expand_scopes known [] expanded = expanded
expand_scopes known (scope ∷ scopes) expanded = expand_scopes known scopes (elim (get scope known) [
  | none ↦ put scope true expanded
  | some enabled ↦ if enabled then put scope true expanded else expanded
])

unfoldable pub updated_scopes : Option (List String) → Dict Bool → Dict Bool
unfolding expand_scopes
updated_scopes none known = known
updated_scopes (some scopes) known = expand_scopes known scopes []

module _ {Q : Type 0} (o : Oidc) (names : ClaimNames) (l : Logon Q) where
  -- The redirect to the sign-in form, where the request may show one.
  unfoldable pub ask_sign_in : AuthenticationRequest → GoError → Result Authorized
  unfolding add_claims_scope
  ask_sign_in ar e = do
    guard (not (flag o.prompt_none ar.prompts)) e
    q ← l.sign_in.query
    uri ← deref (l.sign_in.identifier.urls.parse l.sign_in.sign_in_form_uri)
    let asked : Q =
        add_claims_scope o names l.sign_in ar.claims ar.scopes (l.sign_in.set "flow" "oidc" q)
    ok (sent (l.sign_in.with_query asked uri))

  -- What the next manager finds: its errors are ignored.
  unfoldable pub taken_auth : Result AuthRecord → Result (Option AuthRecord)
  taken_auth (ok auth) = ok (some auth)
  taken_auth (err e) = ok none
  taken_auth panic = panic

  unfoldable pub inner_auth : AuthenticationRequest → Result (Option AuthRecord)
  unfolding taken_auth
  inner_auth ar =
      if l.mode == must_be_signed_in
      then ok none
      else elim l.next [ none ↦ ok none | some authenticate ↦ taken_auth (authenticate ar) ]

  -- Nobody is signed in.
  unfoldable pub not_signed_in : AuthenticationRequest → Result Authorized
  unfolding inner_auth ask_sign_in
  not_signed_in ar = do
    inner ← inner_auth ar
    elim inner [
      | some auth ↦ ok (granted auth ar)
      | none ↦
          ask_sign_in ar (new_error ar o.login_required "IdentifierIdentityManager: not signed in")
    ]

  -- Whether the request wants the sign-in form also for a user that is signed in.
  abbrev pub wants_form : AuthenticationRequest → Bool
  wants_form ar =
      not (flag o.prompt_none ar.prompts)
      && (flag o.prompt_login ar.prompts || flag o.prompt_select_account ar.prompts)

  abbrev pub form_error : AuthenticationRequest → GoError
  form_error ar = new_error ar o.login_required (
      if flag o.prompt_login ar.prompts
      then "IdentifierIdentityManager: prompt=login request"
      else "IdentifierIdentityManager: prompt=select_account request")

  -- auth.SetAuthTime, if the user is logged on
  abbrev pub timed : Option ℕ → AuthRecord → AuthRecord
  timed none auth = auth
  timed (some at_time) auth = record auth { auth_time = some at_time }

  -- The scopes of the backend for the user of a record.
  abbrev pub backend_scopes : Option User → Option (List String)
  backend_scopes none = none
  backend_scopes (some u) = l.user_scopes u

  -- A fetched record, with the scopes of the backend in the request.
  unfoldable pub refreshed : AuthenticationRequest → User → Result AuthRecord → Result Authorized
  unfolding updated_scopes ask_sign_in
  refreshed ar u (ok auth) = ok (
      granted (timed (l.logged_on u) auth)
        (record ar { scopes = updated_scopes (backend_scopes auth.user) ar.scopes }))
  refreshed ar u (err e) = ask_sign_in ar (oauth2_error o.server_error "user not found")
  refreshed ar u panic = panic

  abbrev pub session_ref_of : Option (Option String) → Option String
  session_ref_of none = none
  session_ref_of (some ref) = ref

  -- The request with the required scopes of a user.
  abbrev pub injected : AuthenticationRequest → User → AuthenticationRequest
  injected ar u = record ar {
    scopes = inject_required (required_scopes (l.locked_scopes u)) ar.scopes;
  }

  -- A user is signed in.
  unfoldable pub signed_in : AuthenticationRequest → User → Result Authorized
  unfolding verify_user inject_required required_scopes fetch refreshed ask_sign_in
  signed_in ar u = if wants_form ar then ask_sign_in ar (form_error ar) else do
    verify_user o u.subject ar
    refreshed (injected ar u) u (
        fetch o names l.sign_in.identifier u.raw (session_ref_of u.session_ref) [] []
          (injected ar u).scopes)

  -- Authenticate
  unfoldable pub identifier_authenticate : AuthenticationRequest → Result Authorized
  unfolding not_signed_in signed_in
  identifier_authenticate ar = do
    guard (l.form_error == "") (new_error ar l.form_error l.form_error_description)
    elim (l.logon_user ar.max_age) [ none ↦ not_signed_in ar | some u ↦ signed_in ar u ]
