-- ===== src/Clients.antt =====
-- identity/clients: client registrations (models.go, clients.go, claims.go).
pub mod Registry
pub mod Lookup
pub mod Secrets
use lico.Base.{
  ℕ, ◌+◌, String, Bool, true, false, Option, none, some, List, [], ◌∷◌, ◌==◌, ◌||◌, ◌&&◌, not,
  if◌then◌else◌, ltb,
}
use lico.Base.Dict.{Dict, put}
use lico.Errors.{GoError, failure, Result, ok, err, panic, ◌>>=◌, guard, deref}
use lico.Url.{Url, UrlLib}
use Prim.Native.String

-- gojwk.Key, as far as the program reads it; `material` is what DecodePublicKey decodes.
pub record Jwk : Type 0 where
  pub kid : String
  pub use_of : String
  pub material : String

-- ClientRegistration
pub record ClientRegistration : Type 0 where
  pub id : String
  pub secret : String
  pub trusted : Bool
  pub trusted_scopes : List String
  pub insecure : Bool
  pub implicit_scopes : List String
  pub dynamic : Bool
  pub id_issued_at : ℕ
  pub secret_expires_at : ℕ
  pub contacts : List String
  pub name : String
  pub uri : String
  pub grant_types : List String
  pub application_type : String
  pub redirect_uris : List String
  pub origins : List String
  pub jwks : Option (List Jwk)
  pub raw_id_token_signed_response_alg : String
  pub raw_user_info_signed_response_alg : String
  pub raw_request_object_signing_alg : String
  pub raw_token_endpoint_auth_method : String
  pub raw_token_endpoint_auth_signing_alg : String
  pub post_logout_redirect_uris : List String

-- Details
pub record Details : Type 0 where
  pub id : String
  pub display_name : String
  pub redirect_uri : String
  pub trusted : Bool
  pub registration : Option ClientRegistration

-- Secured
pub record Secured : Type 0 where
  pub id : String
  pub display_name : String
  pub application_type : String
  pub kid : String
  pub key : String
  pub trusted_scopes : List String
  pub registration : ClientRegistration

-- RegistrationClaims: the claims of a dynamic client's id. The embedded registration is a pointer.
pub record RegistrationClaims : Type 0 where
  pub subject : String
  pub issued_at : ℕ
  pub expires_at : ℕ
  pub registration : Option ClientRegistration

-- What models.go calls of other packages.
pub record ClientLib : Type 0 where
  -- (*gojwk.Key).DecodePublicKey
  pub decode_public_key : Jwk → Result String
  -- base64.RawURLEncoding
  pub encode_base64 : String → String
  pub decode_base64 : String → Option String
  -- blake2b.New512 with a key: none if it refuses the key, else the sum of what is written
  pub blake2b_512 : String → Option (String → String)

abbrev pub dynamic_prefix : String
dynamic_prefix = "dyn."

abbrev pub static_salt : String
static_salt = "konnect-client-v1"

-- IsLocalNativeHostURI
unfoldable pub is_local_native_host_uri : UrlLib → Url → Bool
is_local_native_host_uri lib uri =
    let hostname = lib.hostname uri in
    hostname == "localhost" || hostname == "127.0.0.1" || hostname == "::1"

-- IsLocalNativeHTTPURI
unfoldable pub is_local_native_http_uri : UrlLib → Url → Bool
unfolding is_local_native_host_uri
is_local_native_http_uri lib uri = uri.scheme == "http" && is_local_native_host_uri lib uri

-- The loop of ApplyImplicitScopes.
unfoldable pub set_scopes : List String → Dict Bool → Dict Bool
set_scopes [] scopes = scopes
set_scopes (scope ∷ implicit) scopes =
    set_scopes implicit (if scope == "" then scopes else put scope true scopes)

-- ApplyImplicitScopes
unfoldable pub apply_implicit_scopes : ClientRegistration → Dict Bool → Dict Bool
unfolding set_scopes
apply_implicit_scopes cr scopes = set_scopes cr.implicit_scopes scopes

-- The search by kid in Secure: the key of the first entry with the kid, decoded.
unfoldable pub find_key : ClientLib → String → List Jwk → Result (Option String)
find_key lib kid [] = ok none
find_key lib kid (k ∷ ks) =
    let here : Result (Option String) = (do key ← lib.decode_public_key k; ok (some key)) in
    let rest = find_key lib kid ks in if kid == k.kid then here else rest

-- kid, _ = rawKid.(string), with its default
abbrev kid_or_default : Option String → String
kid_or_default none = "default"
kid_or_default (some kid) = if kid == "" then "default" else kid

-- The kid and the key that Secure settles on; a nil JWKS is the use of a nil pointer.
unfoldable pub select_key :
    ClientLib → Option (List Jwk) → Option String → Result (String × Option String)
unfolding find_key
select_key lib none raw_kid = panic
select_key lib (some []) raw_kid = ok ("", none)
select_key lib (some (k ∷ [])) raw_kid = do key ← lib.decode_public_key k; ok (k.kid, some key)
select_key lib (some (k ∷ l ∷ ks)) raw_kid =
    let kid : String = kid_or_default raw_kid in
    do found ← find_key lib kid (k ∷ l ∷ ks); ok (kid, found)

unfoldable pub secured_with : ClientRegistration → String × Option String → Result Secured
secured_with cr (kid, none) = err (failure "unknown kid")
secured_with cr (kid, some key) = ok (record {
  id = cr.id;
  display_name = cr.name;
  application_type = cr.application_type;
  kid = kid;
  key = key;
  trusted_scopes = cr.trusted_scopes;
  registration = cr;
})

-- Secure; the raw kid is `none` where the header holds no text.
unfoldable pub secure : ClientLib → ClientRegistration → Option String → Result Secured
unfolding select_key secured_with
secure lib cr raw_kid = do selected ← select_key lib cr.jwks raw_kid; secured_with cr selected

-- makeSecret, given a secret: the subject and the secret as texts
unfoldable pub make_secret : ClientLib → ClientRegistration → String → Result (String × String)
make_secret lib cr secret = elim (lib.blake2b_512 secret) [
  | none ↦ err (failure "failed to create hasher for dynamic client_id")
  | some sum ↦ ok (
    lib.encode_base64 (sum (String.◌++◌ cr.name (String.◌++◌ " " static_salt))),
    lib.encode_base64 secret,
  )
]

-- validateSecret; subtle.ConstantTimeCompare is the equality of texts
unfoldable pub validate_secret : ClientLib → ClientRegistration → String → Result Bool
validate_secret lib cr client_secret =
    if cr.dynamic
    then (if cr.secret == ""
        then err (failure "no secret in registration")
        else elim (lib.decode_base64 client_secret) [
          | none ↦ err (failure "failed to decode client secret")
          | some secret ↦ do (sub, _) ← make_secret lib cr secret; ok (sub == cr.secret)
        ])
    else ok (cr.secret == "" || client_secret == cr.secret)

-- What SetDynamic reads of its surroundings: the registry's duration, the time, the random secret,
-- and the creator, which may be missing.
pub record DynamicContext : Type 0 where
  pub creator : Option (RegistrationClaims → Result String)
  pub registry : Option ℕ
  pub now : ℕ
  pub random_bytes : String

-- The part of SetDynamic that fills in the times.
unfoldable pub start_dynamic : ℕ → ℕ → ClientRegistration → ClientRegistration
start_dynamic now duration cr = record cr {
  id_issued_at = now;
  secret_expires_at = if ltb 0 duration then now + duration else cr.secret_expires_at;
  dynamic = true;
}

abbrev pub dynamic_claims : String → ClientRegistration → RegistrationClaims
dynamic_claims sub cr = record {
  subject = sub;
  issued_at = cr.id_issued_at;
  expires_at = cr.secret_expires_at;
  registration = some cr;
}

-- The rest of SetDynamic, from the secret on. Where the creator fails, SetDynamic returns nil.
unfoldable pub finish_dynamic :
    ClientLib
    → (RegistrationClaims → Result String)
    → String
    → ClientRegistration
    → ClientRegistration × Option GoError
finish_dynamic lib creator random_bytes cr = elim (make_secret lib cr random_bytes) [
  | ok (sub, secret) ↦ elim (creator (dynamic_claims sub cr)) [
    | ok id ↦ (record cr { id = String.◌++◌ dynamic_prefix id; secret = secret }, none)
    | _ ↦ (cr, none)
  ]
  | _ ↦ (cr, some (failure "failed to make dynamic client secret"))
]

-- SetDynamic: the registration as it leaves it, and the error.
unfoldable pub set_dynamic :
    ClientLib → DynamicContext → ClientRegistration → ClientRegistration × Option GoError
set_dynamic lib ctx cr = elim ctx.creator [
  | none ↦ (cr, some (failure "no creator"))
  | some creator ↦
      if not (cr.id == "") then (cr, some (failure "has ID already")) else elim ctx.registry [
        | none ↦ (cr, some (failure "no registry"))
        | some duration ↦
            finish_dynamic lib creator ctx.random_bytes (start_dynamic ctx.now duration cr)
      ]
]
