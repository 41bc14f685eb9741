-- ===== src/Payload/Claims.antt =====
-- oidc/payload/claims.go: the claims request parameter, and lists of scopes as one text.
pub mod Filter
pub mod Encoding
use lico.Base.{
  String, ◌≡◌, Bool, true, false, Option, none, some, List, [], ◌∷◌, ◌==◌, ◌&&◌, ◌||◌, not,
  if◌then◌else◌, is_some,
}
use lico.Base.Text.{split, join}
use lico.Base.Dict.{Dict, get, put, keys, has, flag, remove_all, mark}

-- The names in claims.go's table of scoped claims, which oidc-go defines.
pub record ClaimNames : Type 0 where
  pub name_claim : String
  pub family_name_claim : String
  pub given_name_claim : String
  pub middle_name_claim : String
  pub preferred_username_claim : String
  pub profile_claim : String
  pub picture_claim : String
  pub website_claim : String
  pub gender_claim : String
  pub birthdate_claim : String
  pub zoneinfo_claim : String
  pub updated_at_claim : String
  pub email_claim : String
  pub email_verified_claim : String
  pub scope_profile : String
  pub scope_email : String

mutual
  -- A decoded JSON value of a claim; numbers and arrays are not looked into.
  pub data Value : Type 0 where
    null : Value
    text : String → Value
    boolean : Bool → Value
    object : Fields → Value
    other : String → Value

  -- The fields of a map[string]interface{} inside a value.
  pub data Fields : Type 0 where
    end : Fields
    field : String → Value → Fields → Fields

-- The map of an object's fields.
unfoldable pub map_of : Fields → Dict Value
map_of end = []
map_of (field name value rest) = (name, value) ∷ map_of rest

unfoldable pub object_of : Dict Value → Fields
object_of [] = end
object_of ((name, value) ∷ m) = field name value (object_of m)

-- v, _ := claim.(map[string]interface{})
abbrev pub as_object : Option Value → Option Fields
as_object (some (object fields)) = some fields
as_object _ = none

-- v, _ := claim.(string)
abbrev pub as_text : Option Value → String
as_text (some (text s)) = s
as_text _ = ""

pub record ClaimsRequestValue : Type 0 where
  pub essential : Bool
  pub value : Value
  pub values : List Value

-- map[string]*ClaimsRequestValue; JSON null makes a nil entry
abbrev pub ClaimsRequestMap : Type 0
ClaimsRequestMap = Dict (Option ClaimsRequestValue)

pub record ClaimsRequest : Type 0 where
  pub user_info : Option ClaimsRequestMap
  pub id_token : Option ClaimsRequestMap
  pub passthru : Option String

-- The claims that a range over a claims map goes through, if there is a map.
abbrev pub keys_of : Option ClaimsRequestMap → List String
keys_of none = []
keys_of (some m) = keys m

module _ (names : ClaimNames) where
  -- scopedClaims
  unfoldable pub scoped_claims : Dict String
  scoped_claims =
      (names.name_claim, names.scope_profile)
      ∷ (names.family_name_claim, names.scope_profile)
      ∷ (names.given_name_claim, names.scope_profile)
      ∷ (names.middle_name_claim, names.scope_profile)
      ∷ (names.preferred_username_claim, names.scope_profile)
      ∷ (names.profile_claim, names.scope_profile)
      ∷ (names.picture_claim, names.scope_profile)
      ∷ (names.website_claim, names.scope_profile)
      ∷ (names.gender_claim, names.scope_profile)
      ∷ (names.birthdate_claim, names.scope_profile)
      ∷ (names.zoneinfo_claim, names.scope_profile)
      ∷ (names.updated_at_claim, names.scope_profile)
      ∷ (names.email_claim, names.scope_email)
      ∷ (names.email_verified_claim, names.scope_email)
      ∷ []

  -- GetScopeForClaim
  unfoldable pub get_scope_for_claim : String → Option String
  unfolding scoped_claims
  get_scope_for_claim claim = get claim scoped_claims

  -- scopedClaims[claim]: the empty text where the claim is not known
  unfoldable pub scope_of : String → String
  unfolding get_scope_for_claim
  scope_of claim = elim (get_scope_for_claim claim) [ none ↦ "" | some scope ↦ scope ]

  -- The claims that the loop over one map of ApplyScopes deletes.
  unfoldable pub unapproved : Dict Bool → List String → List String
  unapproved approved [] = []
  unapproved approved (claim ∷ claims) =
      let rest = unapproved approved claims in
      if flag (scope_of claim) approved then rest else claim ∷ rest

  unfoldable pub apply_scopes_map : Dict Bool → Option ClaimsRequestMap → Option ClaimsRequestMap
  unfolding unapproved
  apply_scopes_map approved none = none
  apply_scopes_map approved (some m) = some (remove_all (unapproved approved (keys m)) m)

  -- ApplyScopes
  unfoldable pub apply_scopes : Dict Bool → ClaimsRequest → ClaimsRequest
  unfolding apply_scopes_map
  apply_scopes approved cr = record cr {
    user_info = apply_scopes_map approved cr.user_info;
    id_token = apply_scopes_map approved cr.id_token;
  }

  -- The loop of ScopesMap over the claims: a scope is added unless it is excluded.
  unfoldable pub collect_scopes : Dict Bool → List String → Dict Bool → Dict Bool
  collect_scopes excluded [] scopes = scopes
  collect_scopes excluded (claim ∷ claims) scopes =
      collect_scopes excluded claims
        (if has (scope_of claim) excluded then scopes else put (scope_of claim) true scopes)

  -- (*ClaimsRequestMap).ScopesMap
  unfoldable pub scopes_map : Dict Bool → ClaimsRequestMap → Dict Bool
  unfolding collect_scopes
  scopes_map excluded crm = collect_scopes excluded (keys crm) []

  -- (*ClaimsRequest).Scopes
  unfoldable pub scopes : Dict Bool → ClaimsRequest → List String
  unfolding collect_scopes
  scopes excluded cr = keys (
      collect_scopes excluded (keys_of cr.id_token)
        (collect_scopes excluded (keys_of cr.user_info) []))

-- value == v, for a text
abbrev is_text : String → Value → Bool
is_text s null = false
is_text s (text t) = s == t
is_text s (boolean b) = false
is_text s (object fields) = false
is_text s (other t) = false

abbrev any_text : String → List Value → Bool
any_text s [] = false
any_text s (v ∷ vs) = is_text s v || any_text s vs

-- Match, of a text
unfoldable pub match : ClaimsRequestValue → String → Bool
match crv s = elim crv.values [ [] ↦ is_text s crv.value | v ∷ vs ↦ any_text s (v ∷ vs) ]

-- GetStringValue; `none` is false, and the outer `none` is the panic of a nil entry
unfoldable pub get_string_value : ClaimsRequestMap → String → Option (Option String)
get_string_value crm claim = elim (get claim crm) [
  | none ↦ some none
  | some none ↦ none
  | some (some v) ↦ elim v.value [ text s ↦ some (some s) | _ ↦ some none ]
]

-- What MarshalJSON of a ScopesValue encodes, and UnmarshalJSON makes of the decoded text.
unfoldable pub marshal_scopes : List String → String
unfolding join
marshal_scopes sv = join sv

unfoldable pub unmarshal_scopes : String → List String
unfolding split
unmarshal_scopes s = split s
