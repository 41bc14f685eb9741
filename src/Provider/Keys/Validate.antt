-- ===== src/Provider/Keys/Validate.antt =====
-- Which tokens the provider's own key function accepts.
use lico.Base.{String, Bool, true, false, Option, none, some, ◌≡◌, ◌↔◌, refl, if◌then◌else◌}
use lico.Base.Dict.{get}
use lico.Errors.{◌>>=◌, failure, Result, ok, err, >>=-eq-ok}
use lico.Jwt.{SigningMethod, HeaderValue, missing, not_text, text, Token, Key, public_key}
use lico.Provider.Keys.{ProviderKeys, is_accepted, header_text, key_of_header, validate_jwt}

header_text-eq-ok :
    (absent wrong : String) (h : HeaderValue) {s : String}
    → header_text absent wrong h ≡ ok s
    → h ≡ text s
unfolding header_text
header_text-eq-ok absent wrong missing e = cc
header_text-eq-ok absent wrong not_text e = cc
header_text-eq-ok absent wrong (text t) e = cc

abbrev key_found : Option String → Result Key
key_found none = err (failure "Unknown kid")
key_found (some key) = ok (public_key key)

key_found-eq-ok :
    (found : Option String) (key : Key)
    → key_found found ≡ ok key
    → (name : String) × (found ≡ some name) × (key ≡ public_key name)
key_found-eq-ok none key e = cc
key_found-eq-ok (some name) key e = (name, refl, cc)

key_of_header-eq-ok :
    (p : ProviderKeys) (h : HeaderValue) (key : Key)
    → key_of_header p h ≡ ok key
    → (kid : String) × (name : String) × (h ≡ text kid)
      × (get kid p.validation_keys ≡ some name)
      × (key ≡ public_key name)
unfolding key_of_header
key_of_header-eq-ok p h key e =
    let (kid, named, found) = >>=-eq-ok (header_text "No kid header" "Invalid kid value" h) _ e in
    let (name, known, same) = key_found-eq-ok (get kid p.validation_keys) key found in
    (kid, name, header_text-eq-ok _ _ h named, known, same)

accepted-eq-ok :
    (b : Bool) (m : Result Key) {key : Key}
    → (if b then m else err (failure "Unexpected alg value")) ≡ ok key
    → (b ≡ true) × (m ≡ ok key)
accepted-eq-ok true m e = (refl, e)
accepted-eq-ok false m e = cc

-- validateJWT hands out a key exactly for a token whose header names, as texts, an RSA, RSA-PSS or ECDSA
-- method and the id of a validation key, and then it is that key: never the constant that lets an
-- unsigned token pass.
pub validate_jwt_iff :
    {C : Type 0} (p : ProviderKeys) (get_signing_method : String → Option SigningMethod)
    → (token : Token C) (key : Key)
    → (validate_jwt p get_signing_method token ≡ ok key) ↔ (
        (alg : String) × (kid : String) × (name : String) × (token.alg ≡ text alg)
        × (token.kid ≡ text kid)
        × (is_accepted (get_signing_method alg) ≡ true)
        × (get kid p.validation_keys ≡ some name)
        × (key ≡ public_key name))
unfolding validate_jwt
validate_jwt_iff p get_signing_method token key = (
  (λ e.
      let (alg, named, rest) =
        >>=-eq-ok (header_text "No alg header" "Invalid alg value" token.alg) _ e in
      let (accepted, found) =
        accepted-eq-ok (is_accepted (get_signing_method alg)) (key_of_header p token.kid) rest in
      let (kid, name, in_header, known, same) = key_of_header-eq-ok p token.kid key found in
      (alg, kid, name, header_text-eq-ok _ _ token.alg named, in_header, accepted, known, same)),
  (λ (alg, kid, name, in_alg, in_kid, accepted, known, same).
      unfold key_of_header header_text in
      rw (in_alg, accepted, in_kid, header_text, ◌>>=◌, known, same)),
)
