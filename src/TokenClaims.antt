-- ===== src/TokenClaims.antt =====
-- claims.go and scopes.go: the claims of the tokens that the provider makes, and its own scopes. The claims that golang-jwt defines, and
-- whether it takes them as valid, are parameters.
use lico.Base.{String, Bool, ℕ, Option, none, some, List, ◌==◌}
use lico.Base.Dict.{Dict, set_of}
use lico.Errors.{failure, Result, ok, ◌>>◌, guard}
use lico.Payload.Claims.{ClaimsRequest, Value}

abbrev pub ref_claim : String
ref_claim = "lg.r"

abbrev pub identity_claim : String
identity_claim = "lg.i"

abbrev pub identity_provider_claim : String
identity_provider_claim = "lg.p"

abbrev pub scopes_claim : String
scopes_claim = "scp"

abbrev pub identified_user_claim : String
identified_user_claim = "us"

abbrev pub identified_user_id_claim : String
identified_user_id_claim = "id"

abbrev pub identified_user_is_guest : String
identified_user_is_guest = "gu"

abbrev pub identified_data : String
identified_data = "da"

abbrev pub internal_extra_id_token_claims_claim : String
internal_extra_id_token_claims_claim = "$lico.id.extra"

abbrev pub internal_extra_access_token_claims_claim : String
internal_extra_access_token_claims_claim = "$lico.at.extra"

abbrev pub token_type_access_token : String
token_type_access_token = "1"

abbrev pub token_type_refresh_token : String
token_type_refresh_token = "2"

abbrev pub scope_numeric_id : String
scope_numeric_id = "LibgreGraph.NumericID"

abbrev pub scope_unique_user_id : String
scope_unique_user_id = "LibgreGraph.UUID"

abbrev pub scope_raw_subject : String
scope_raw_subject = "LibreGraph.RawSub"

abbrev pub scope_guest_ok : String
scope_guest_ok = "LibreGraph.GuestOK"

-- jwt.StandardClaims, the fields that the provider sets or reads.
pub record StandardClaims : Type 0 where
  pub issuer : String
  pub subject : String
  pub audience : String
  pub expires_at : ℕ
  pub issued_at : ℕ
  pub id : String

-- AccessTokenClaims; the session claims by their session id
pub record AccessTokenClaims : Type 0 where
  pub standard : StandardClaims
  pub open standard use *
  pub token_type : String
  pub authorized_claims_request : Option ClaimsRequest
  pub authorized_scopes_list : List String
  pub identity_claims : Option (Dict Value)
  pub identity_provider : String
  pub session : Option String

-- RefreshTokenClaims
pub record RefreshTokenClaims : Type 0 where
  pub standard : StandardClaims
  pub open standard use *
  pub token_type : String
  pub approved_scopes_list : List String
  pub approved_claims_request : Option ClaimsRequest
  pub ref : String
  pub identity_claims : Option (Dict Value)
  pub identity_provider : String

-- The Valid methods of jwt.StandardClaims and jwt.MapClaims.
pub record ClaimsLib : Type 0 where
  pub standard_valid : StandardClaims → Result (Unit {0})
  pub map_valid : Dict Value → Result (Unit {0})

module _ (lib : ClaimsLib) where
  abbrev pub identity_valid : Option (Dict Value) → Result (Unit {0})
  identity_valid none = ok tt
  identity_valid (some claims) = lib.map_valid claims

  -- (AccessTokenClaims).Valid
  unfoldable pub access_token_valid : AccessTokenClaims → Result (Unit {0})
  access_token_valid c = do
    lib.standard_valid c.standard
    identity_valid c.identity_claims
    guard (c.token_type == token_type_access_token) (failure "not an access token")

  -- (RefreshTokenClaims).Valid
  unfoldable pub refresh_token_valid : RefreshTokenClaims → Result (Unit {0})
  refresh_token_valid c = do
    lib.standard_valid c.standard
    identity_valid c.identity_claims
    guard (c.token_type == token_type_refresh_token) (failure "not a refresh token")

-- AuthorizedScopes
unfoldable pub authorized_scopes_of : AccessTokenClaims → Dict Bool
authorized_scopes_of c = set_of c.authorized_scopes_list
