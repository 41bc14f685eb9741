-- ===== src/Provider/Keys.antt =====
-- getSigningKey and getValidationKey of oidc/provider/provider.go, and validateJWT of tokens.go.
pub mod Validate
pub mod Setup
use lico.Base.{String, Bool, true, false, Option, none, some, List, [], ◌∷◌, ◌==◌, if◌then◌else◌}
use lico.Base.Dict.{Dict, get}
use lico.Errors.{GoError, failure, Result, ok, err, panic, ◌>>=◌}
use lico.Jwt.{
  MethodKind, rsa, rsa_pss, ecdsa, ed_dsa, hmac, unsigned, SigningMethod, HeaderValue, missing,
  not_text, text, Token, Key, public_key,
}

-- SigningKey; the private key by its name
pub record SigningKey : Type 0 where
  pub id : String
  pub private_key : String
  pub signing_method : SigningMethod

-- The keys of a provider. `signingKeys` is keyed by the method's name here.
pub record ProviderKeys : Type 0 where
  pub signing_method_default : Option SigningMethod
  pub signing_keys : Dict SigningKey
  pub validation_keys : Dict String

-- getSigningKey
unfoldable pub get_signing_key : ProviderKeys → Option SigningMethod → Option SigningKey
get_signing_key p (some method) = get method.alg p.signing_keys
get_signing_key p none = elim p.signing_method_default [
  | none ↦ none
  | some method ↦ get method.alg p.signing_keys
]

-- The cases of validateJWT's switch on the type of the method.
abbrev pub is_accepted_kind : MethodKind → Bool
is_accepted_kind rsa = true
is_accepted_kind rsa_pss = true
is_accepted_kind ecdsa = true
is_accepted_kind ed_dsa = false
is_accepted_kind hmac = false
is_accepted_kind unsigned = false

abbrev pub is_accepted : Option SigningMethod → Bool
is_accepted none = false
is_accepted (some method) = is_accepted_kind method.kind

-- v, ok := header[name].(string)
unfoldable pub header_text : String → String → HeaderValue → Result String
header_text absent wrong missing = err (failure absent)
header_text absent wrong not_text = err (failure wrong)
header_text absent wrong (text s) = ok s

-- The end of validateJWT: the key of the header's key id.
unfoldable pub key_of_header : ProviderKeys → HeaderValue → Result Key
unfolding header_text
key_of_header p header = do
  kid ← header_text "No kid header" "Invalid kid value" header
  elim (get kid p.validation_keys) [
    | none ↦ err (failure "Unknown kid")
    | some key ↦ ok (public_key key)
  ]

-- validateJWT; the function is jwt.GetSigningMethod
unfoldable pub validate_jwt :
    {C : Type 0} → ProviderKeys → (String → Option SigningMethod) → Token C → Result Key
unfolding header_text
validate_jwt p get_signing_method token = do
  alg ← header_text "No alg header" "Invalid alg value" token.alg
  if is_accepted (get_signing_method alg)
      then key_of_header p token.kid
      else err (failure "Unexpected alg value")
