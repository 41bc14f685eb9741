-- ===== src/Provider/Keys/Setup.antt =====
-- SetSigningKey, SetSigningMethod and SetValidationKey of oidc/provider/provider.go.
use lico.Base.{
  String, ◌≡◌, ◌≢◌, refl, inl, inr, Option-cases, Bool, true, false, Option, none, some, List, [],
  ◌∷◌, if◌then◌else◌,
}
use lico.Base.Dict.{Dict, get, put, has, get-put, get-put-same}
use lico.Errors.{failure, Result, ok, err, ◌>>=◌, ◌>>◌, guard, >>-eq-ok}
use lico.Jwt.{SigningMethod, rsa, rsa_pss, ecdsa, ed_dsa, Token, public_key, text}
use lico.Provider.Keys.{
  SigningKey, ProviderKeys, get_signing_key, validate_jwt, header_text, key_of_header, is_accepted,
}

-- A crypto.Signer, by its Go type: the private key by its name.
pub data Signer : Type 0 where
  rsa_signer ecdsa_signer ed25519_signer other_signer : String → Signer

-- The signing methods of golang-jwt, and SigningMethodEdDSA of signing/jwt.go.
abbrev pub ps256 : SigningMethod
ps256 = record { alg = "PS256"; kind = rsa_pss }

abbrev pub es256 : SigningMethod
es256 = record { alg = "ES256"; kind = ecdsa }

abbrev pub signing_method_ed_dsa : SigningMethod
signing_method_ed_dsa = record { alg = "EdDSA"; kind = ed_dsa }

-- The names of the methods that a key is put under, in the order of the code.
abbrev ecdsa_algs : List SigningMethod
ecdsa_algs =
    es256 ∷ record { alg = "ES384"; kind = ecdsa } ∷ record { alg = "ES512"; kind = ecdsa } ∷ []

abbrev rsa_algs : List SigningMethod
rsa_algs =
    record { alg = "RS256"; kind = rsa }
    ∷ record { alg = "RS384"; kind = rsa }
    ∷ record { alg = "RS512"; kind = rsa }
    ∷ ps256
    ∷ record { alg = "PS384"; kind = rsa_pss }
    ∷ record { alg = "PS512"; kind = rsa_pss }
    ∷ []

-- The method that is selected for a signer.
unfoldable pub method_of : Signer → Result SigningMethod
method_of (rsa_signer key) = ok ps256
method_of (ecdsa_signer key) = ok es256
method_of (ed25519_signer key) = ok signing_method_ed_dsa
method_of (other_signer key) = err (failure "unsupported signer type")

abbrev pub private_of : Signer → String
private_of (rsa_signer key) = key
private_of (ecdsa_signer key) = key
private_of (ed25519_signer key) = key
private_of (other_signer key) = key

-- The methods that a key is put under, for the method that was selected.
unfoldable pub methods_for : SigningMethod → List SigningMethod
methods_for method = elim method.kind [
  | rsa ↦ rsa_algs
  | rsa_pss ↦ rsa_algs
  | ecdsa ↦ ecdsa_algs
  | ed_dsa ↦ method ∷ []
  | _ ↦ []
]

-- The assignments to signingKeys.
unfoldable pub put_methods :
    String → String → List SigningMethod → Dict SigningKey → Dict SigningKey
put_methods id key [] m = m
put_methods id key (method ∷ methods) m =
    put_methods id key methods
      (put method.alg (record { id = id; private_key = key; signing_method = method }) m)

-- SetValidationKey
unfoldable pub set_validation_key : String → String → ProviderKeys → ProviderKeys
set_validation_key id key p = record p { validation_keys = put id key p.validation_keys }

-- SetSigningMethod, where there is none yet.
unfoldable pub default_method : SigningMethod → ProviderKeys → ProviderKeys
default_method method p = elim p.signing_method_default [
  | none ↦ record p { signing_method_default = some method }
  | some m ↦ p
]

-- SetSigningKey; `public` is the method Public of a signer. No key is put under an unsupported type, and
-- the methods that are selected are among those that the key is put under.
unfoldable pub set_signing_key :
    (String → String) → String → Signer → ProviderKeys → Result ProviderKeys
unfolding method_of methods_for put_methods set_validation_key default_method
set_signing_key public id signer p = do
  method ← method_of signer
  let keyed : ProviderKeys = record (default_method method p) {
    signing_keys = put_methods id (private_of signer) (methods_for method) p.signing_keys;
  }
  guard (has method.alg keyed.signing_keys) (failure "unsupported signing method")
  ok (set_validation_key id (public (private_of signer)) keyed)

-- Whether a signer is an Ed25519 key.
abbrev pub is_ed25519 : Signer → Bool
is_ed25519 (ed25519_signer key) = true
is_ed25519 _ = false

-- A token in whose header stand the algorithm and the id of a signing key.
abbrev pub headed : {C : Type 0} → SigningKey → Token C → Token C
headed sk token = record token { alg = text sk.signing_method.alg; kid = text sk.id }

-- golang-jwt finds the methods that are selected by their names.
pub record MethodLaws (get_signing_method : String → Option SigningMethod) : Type 0 where
  pub knows_ps256 : get_signing_method "PS256" ≡ some ps256
  pub knows_es256 : get_signing_method "ES256" ≡ some es256
  pub knows_ed_dsa : get_signing_method "EdDSA" ≡ some signing_method_ed_dsa

-- The keys of a provider after SetSigningKey, for the method and the map of signing keys.
abbrev keyed_by : String → String → SigningMethod → Dict SigningKey → ProviderKeys → ProviderKeys
keyed_by id key method m p =
    set_validation_key id key (record (default_method method p) { signing_keys = m })

keyed_by-signs :
    (id key : String) (method : SigningMethod) (m : Dict SigningKey) (p : ProviderKeys)
    (sk : SigningKey)
    → p.signing_method_default ≡ none
    → get method.alg m ≡ some sk
    → get_signing_key (keyed_by id key method m p) none ≡ some sk
unfolding set_validation_key default_method get_signing_key
keyed_by-signs id key method m p sk fresh there = rw fresh there

key_of_known :
    (p : ProviderKeys) (kid name : String)
    → get kid p.validation_keys ≡ some name
    → key_of_header p (text kid) ≡ ok (public_key name)
unfolding key_of_header header_text
key_of_known p kid name known = rw (key_of_header, header_text, ◌>>=◌, known) refl

known_key :
    (id key : String) (method : SigningMethod) (m : Dict SigningKey) (p : ProviderKeys)
    → get id (keyed_by id key method m p).validation_keys ≡ some key
unfolding set_validation_key default_method
known_key id key method m p = elim (Option-cases p.signing_method_default) [
  | inl nothing ↦ rw nothing (get-put-same id key p.validation_keys)
  | inr (m1, present) ↦ rw present (get-put-same id key p.validation_keys)
]

keyed_by-validates :
    {C : Type 0} (get_signing_method : String → Option SigningMethod) (id key : String)
    (method : SigningMethod) (m : Dict SigningKey) (p : ProviderKeys) (token : Token C)
    (private_key : String)
    → get_signing_method method.alg ≡ some method
    → validate_jwt
        (keyed_by id key method m p)
        get_signing_method
        (headed (record { id = id; private_key = private_key; signing_method = method }) token)
      ≡ (if is_accepted (some method)
          then ok (public_key key)
          else err (failure "Unexpected alg value"))
unfolding validate_jwt header_text
keyed_by-validates get_signing_method id key method m p token private_key known =
    rw (known, key_of_known (keyed_by id key method m p) id key (known_key id key method m p)) refl

set_signing_key-keyed_by :
    (public : String → String) (id : String) (signer : Signer) (p keyed : ProviderKeys)
    (method : SigningMethod)
    → method_of signer ≡ ok method
    → set_signing_key public id signer p ≡ ok keyed
    → keyed
      ≡ keyed_by id
          (public (private_of signer))
          method
          (put_methods id (private_of signer) (methods_for method) p.signing_keys)
          p
unfolding set_signing_key
set_signing_key-keyed_by public id signer p keyed method selects h =
    let h1 = rw selects at h in
    let (there, same) = >>-eq-ok (guard (has method.alg _) _) _ h1 in cc same

unsupported :
    (public : String → String) (id key : String) (p : ProviderKeys) {keyed : ProviderKeys}
    → set_signing_key public id (other_signer key) p ≢ ok keyed
unfolding set_signing_key method_of
unsupported public id key p h = cc

-- After SetSigningKey of a provider that has no signing method yet, the default signing key has the id
-- that was set and the method selected for the signer, and a token with its algorithm and id in the header
-- is validated with the public key of the signer, if the key is an RSA or ECDSA key; the validation refuses
-- every token that is signed with an Ed25519 key. golang-jwt finds the methods by their names.
pub set_signing_key-validate_jwt :
    {C : Type 0} (public : String → String) (get_signing_method : String → Option SigningMethod)
    (id : String) (signer : Signer) (p keyed : ProviderKeys) (token : Token C)
    → MethodLaws get_signing_method
    → p.signing_method_default ≡ none
    → set_signing_key public id signer p ≡ ok keyed
    → (sk : SigningKey) × (get_signing_key keyed none ≡ some sk)
      × (sk.id ≡ id)
      × (method_of signer ≡ ok sk.signing_method)
      × (validate_jwt keyed get_signing_method (headed sk token) ≡ (
          if is_ed25519 signer
          then err (failure "Unexpected alg value")
          else ok (public_key (public (private_of signer)))))
unfolding method_of methods_for put_methods
set_signing_key-validate_jwt public get_signing_method id (rsa_signer key) p keyed token laws fresh
      h =
    let same = set_signing_key-keyed_by public id (rsa_signer key) p keyed ps256 refl h in
    rw same (
      (
        record { id = id; private_key = key; signing_method = ps256 },
        keyed_by-signs id (public key) ps256 _ p _ fresh (rw (get-put, get-put, get-put) refl),
        refl,
        refl,
        keyed_by-validates get_signing_method id (public key) ps256 _ p token key laws.knows_ps256,
      ))
set_signing_key-validate_jwt public get_signing_method id (ecdsa_signer key) p keyed token laws
      fresh h =
    let same = set_signing_key-keyed_by public id (ecdsa_signer key) p keyed es256 refl h in
    rw same (
      (
        record { id = id; private_key = key; signing_method = es256 },
        keyed_by-signs id (public key) es256 _ p _ fresh (rw (get-put, get-put, get-put) refl),
        refl,
        refl,
        keyed_by-validates get_signing_method id (public key) es256 _ p token key laws.knows_es256,
      ))
set_signing_key-validate_jwt public get_signing_method id (ed25519_signer key) p keyed token laws
      fresh h =
    let same =
      set_signing_key-keyed_by public id (ed25519_signer key) p keyed signing_method_ed_dsa refl
        h in
    rw same (
      (
        record { id = id; private_key = key; signing_method = signing_method_ed_dsa },
        keyed_by-signs id (public key) signing_method_ed_dsa _ p _ fresh (rw get-put refl),
        refl,
        refl,
        keyed_by-validates get_signing_method id (public key) signing_method_ed_dsa _ p token key
            laws.knows_ed_dsa,
      ))
set_signing_key-validate_jwt public get_signing_method id (other_signer key) p keyed token laws
      fresh h =
    absurd (unsupported public id key p h)
