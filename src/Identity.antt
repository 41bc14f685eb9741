-- ===== src/Identity.antt =====
-- identity/utils.go, identity/authrecord.go and the scope helpers around them.
pub mod Authorize
pub mod Claims
pub mod Identifier
pub mod Guest
use lico.Base.{
  ℕ, String, Bool, true, false, Option, none, some, List, [], ◌∷◌, ◌==◌, ◌||◌, ◌&&◌, not,
  if◌then◌else◌,
}
use lico.Base.Lists.{contains}
use Prim.Native.String
use lico.Base.Dict.{Dict, get, put, remove, remove_all, keys, has, flag, mark, set_of}
use lico.Oidc.{Oidc}
use lico.Payload.Claims.{ClaimsRequest, Value}

-- The two identity managers that a provider knows (identityManager and guestManager).
pub data ManagerRef : Type 0 where
  identity_manager guest_manager : ManagerRef

-- EmailClaims and ProfileClaims of oidc/claims.go
pub record EmailClaims : Type 0 where
  pub email : String
  pub email_verified : Bool

pub record ProfileClaims : Type 0 where
  pub name : String
  pub family_name : String
  pub given_name : String
  pub preferred_username : String

-- The types that jwt.Claims has in an authRecord's claims by scope.
pub data ScopeClaims : Type 0 where
  email_claims : EmailClaims → ScopeClaims
  profile_claims : ProfileClaims → ScopeClaims
  map_claims : Dict Value → ScopeClaims

-- UserWithProfile
pub record UserProfile : Type 0 where
  pub name : String
  pub family_name : String
  pub given_name : String

-- A user of identity/user.go: its subject, its raw subject and, by type assertions, what its type has
-- beside them. `none` is a user of a type without the methods.
pub record User : Type 0 where
  pub subject : String
  pub raw : String
  pub email : Option EmailClaims
  pub profile : Option UserProfile
  pub username : Option String
  pub id : Option ℕ
  pub unique_id : Option String
  pub claims : Option (Dict Value)
  pub scoped_claims : Option (Dict Bool → Option (Dict Value))
  pub session_ref : Option (Option String)

-- authRecord
pub record AuthRecord : Type 0 where
  pub manager : ManagerRef
  pub sub : String
  pub authorized_scopes : Dict Bool
  pub authorized_claims : Option ClaimsRequest
  pub claims_by_scope : Dict ScopeClaims
  pub user : Option User
  pub auth_time : Option ℕ

-- The first loop of (*authRecord).AuthorizeScopes.
unfoldable pub grant_scopes : Dict Bool → Dict Bool → Dict Bool
grant_scopes [] scopes = scopes
grant_scopes ((scope, grant) ∷ m) scopes =
    grant_scopes m (if grant then put scope grant scopes else remove scope scopes)

unfoldable pub apply_authorized : AuthRecord → Option (Dict Bool × Dict Bool) → AuthRecord
unfolding grant_scopes
apply_authorized r none = r
apply_authorized r (some (granted, refused)) = record r {
  authorized_scopes = remove_all (keys refused) (grant_scopes granted r.authorized_scopes);
}

module _ (o : Oidc) where
  -- isKnownScope
  unfoldable pub is_known_scope : String → Bool
  is_known_scope scope = scope == o.scope_openid

  -- The decision of AuthorizeScopes about one scope; `supported` is the map of the manager's scopes.
  unfoldable pub is_authorized : Dict Bool → String → Bool → Bool
  unfolding is_known_scope
  is_authorized supported scope authorized_scope =
      authorized_scope && (is_known_scope scope || has scope supported)

  -- The loop of AuthorizeScopes: the authorized and the unauthorized scopes.
  unfoldable pub authorize_loop :
      Dict Bool → Dict Bool → Dict Bool → Dict Bool → Dict Bool × Dict Bool
  authorize_loop supported [] yes_scopes no_scopes = (yes_scopes, no_scopes)
  authorize_loop supported ((scope, b) ∷ scopes) yes_scopes no_scopes =
      let ok = is_authorized supported scope b in
      authorize_loop supported scopes (if ok then put scope true yes_scopes else yes_scopes)
        (if ok then no_scopes else put scope false no_scopes)

  -- AuthorizeScopes; `scopes_supported` is the manager's method, and `none` stands for two nil maps.
  unfoldable pub authorize_scopes :
      (Dict Bool → List String) → Option User → Dict Bool → Option (Dict Bool × Dict Bool)
  unfolding authorize_loop
  authorize_scopes scopes_supported none scopes = none
  authorize_scopes scopes_supported (some u) scopes =
      some (authorize_loop (set_of (scopes_supported scopes)) scopes [] [])

  -- (*authRecord).AuthorizeScopes
  unfoldable pub auth_authorize_scopes :
      (Dict Bool → List String) → AuthRecord → Dict Bool → AuthRecord
  unfolding apply_authorized authorize_scopes
  auth_authorize_scopes scopes_supported r scopes =
      apply_authorized r (authorize_scopes scopes_supported r.user scopes)

-- (*authRecord).AuthorizeClaims
unfoldable pub authorize_claims : AuthRecord → Option ClaimsRequest → AuthRecord
authorize_claims r claims = record r { authorized_claims = claims }

-- makeArrayFromBoolMap of oidc/provider/utils.go
unfoldable pub make_array_from_bool_map : Dict Bool → List String
make_array_from_bool_map [] = []
make_array_from_bool_map ((k, v) ∷ m) =
    let rest = make_array_from_bool_map m in if v then k ∷ rest else rest

-- uniqueStrings of oidc/provider/utils.go; `seen` is its map
unfoldable pub unique_from : List String → List String → List String
unique_from seen [] = []
unique_from seen (s ∷ ss) =
    let later = unique_from (s ∷ seen) ss in
    let same = unique_from seen ss in if contains s seen then same else s ∷ later

unfoldable pub unique_strings : List String → List String
unfolding unique_from
unique_strings ss = unique_from [] ss

-- GetSessionRef
unfoldable pub get_session_ref : String → String → String → Option String
get_session_ref label audience user_id =
    if user_id == "" then none else some (String.◌++◌ label (String.◌++◌ ":-:" user_id))
