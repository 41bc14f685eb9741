-- ===== src/Jwt.antt =====
-- The types of github.com/golang-jwt/jwt that the program reads. Parsing and signing are parameters
-- of the definitions that call them.
use lico.Base.{String, Bool, true, false}

-- The Go types of signing methods that the program tells apart.
pub data MethodKind : Type 0 where
  rsa rsa_pss ecdsa ed_dsa hmac unsigned : MethodKind

pub record SigningMethod : Type 0 where
  pub alg : String
  pub kind : MethodKind

abbrev is_unsigned_kind : MethodKind → Bool
is_unsigned_kind unsigned = true
is_unsigned_kind _ = false

-- method == jwt.SigningMethodNone
abbrev pub is_unsigned : SigningMethod → Bool
is_unsigned m = is_unsigned_kind m.kind

-- A header value: missing, of another type, or a text.
pub data HeaderValue : Type 0 where
  missing not_text : HeaderValue
  text : String → HeaderValue

pub record Token (C : Type 0) : Type 0 where
  pub method : SigningMethod
  pub alg : HeaderValue
  pub kid : HeaderValue
  pub claims : C

-- The claims of an ID token that the program reads (konnectoidc.IDTokenClaims).
pub record IdTokenClaims : Type 0 where
  pub subject : String
  pub audience : String

-- What jwt.Keyfunc returns: a public key by its name, or the constant that lets a token pass unsigned.
pub data Key : Type 0 where
  public_key : String → Key
  allow_none : Key
