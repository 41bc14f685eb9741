-- ===== src/Tests/Keys.antt =====
-- A run of SetSigningKey.
use lico.Base.{String, ◌≡◌, refl, ◌∷◌, Option, none, some, [], ◌==◌, if◌then◌else◌}
use lico.Base.Dict.{put, get}
use lico.Errors.{ok, err, failure}
use lico.Jwt.{SigningMethod}
use lico.Provider.Keys.{SigningKey, ProviderKeys, get_signing_key, validate_jwt}
use lico.Provider.Keys.Setup.{
  ed25519_signer, signing_method_ed_dsa, ps256, es256, method_of, methods_for, put_methods,
  set_validation_key, default_method, set_signing_key, headed, set_signing_key-validate_jwt,
}
use lico.Tests.Authorize.{object}

abbrev no_keys : ProviderKeys
no_keys = record { signing_method_default = none; signing_keys = []; validation_keys = [] }

abbrev get_method : String → Option SigningMethod
get_method alg =
    if alg == "PS256"
    then some ps256
    else if alg == "ES256"
    then some es256
    else some signing_method_ed_dsa

abbrev ed_keys : ProviderKeys
ed_keys = record {
  signing_method_default = some signing_method_ed_dsa;
  signing_keys =
      ("EdDSA", record { id = "k"; private_key = "s"; signing_method = signing_method_ed_dsa })
      ∷ [];
  validation_keys = ("k", "s") ∷ [];
}

ed_run : set_signing_key (λ key. key) "k" (ed25519_signer "s") no_keys ≡ ok ed_keys
unfolding set_signing_key method_of methods_for put_methods set_validation_key default_method put
    get
ed_run = refl

set_signing_key-validate_jwt_example :
    (sk : SigningKey) × (get_signing_key ed_keys none ≡ some sk)
    × (sk.id ≡ "k")
    × (method_of (ed25519_signer "s") ≡ ok sk.signing_method)
    × (validate_jwt ed_keys get_method (headed sk object) ≡ err (failure "Unexpected alg value"))
set_signing_key-validate_jwt_example =
    set_signing_key-validate_jwt (λ key. key) get_method "k" (ed25519_signer "s") no_keys ed_keys
      object (record { knows_ps256 = refl; knows_es256 = refl; knows_ed_dsa = refl }) refl ed_run
