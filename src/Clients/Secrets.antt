-- ===== src/Clients/Secrets.antt =====
-- Secrets of dynamic clients, and the keys of secured ones.
use Prim.Native.String
use lico.Base.{ℕ, String, true, none, some, ◌≡◌, ◌≢◌, refl, ◌∙◌, arith, eq_iff}
use lico.Errors.{Result, ok}
use lico.Clients.{
  ClientRegistration, ClientLib, RegistrationClaims, DynamicContext, make_secret, validate_secret,
  static_salt, dynamic_prefix, dynamic_claims, start_dynamic, finish_dynamic, set_dynamic,
}

-- What the encodings and the hash are relied on for: the base64 text of a secret is decoded to the
-- secret.
pub record SecretLaws (lib : ClientLib) (secret : String) : Type 0 where
  pub decode_encode : lib.decode_base64 (lib.encode_base64 secret) ≡ some secret

-- The subject that makeSecret derives from a name and a secret.
abbrev pub subject_of : (String → String) → ClientLib → String → String
subject_of sum lib name = lib.encode_base64 (sum (String.◌++◌ name (String.◌++◌ " " static_salt)))

module _ (lib : ClientLib) where
  make_secret_lem :
      (cr : ClientRegistration) (secret : String) (sum : String → String)
      → lib.blake2b_512 secret ≡ some sum
      → make_secret lib cr secret ≡ ok (subject_of sum lib cr.name, lib.encode_base64 secret)
  unfolding make_secret
  make_secret_lem cr secret sum h = ground arith

  finish_dynamic_lem :
      (creator : RegistrationClaims → Result String) (bytes : String) (cr : ClientRegistration)
      → (sum : String → String) (id : String) → lib.blake2b_512 bytes ≡ some sum
      → creator (dynamic_claims (subject_of sum lib cr.name) cr) ≡ ok id
      → finish_dynamic lib creator bytes cr
        ≡ (record cr { id = String.◌++◌ dynamic_prefix id; secret = lib.encode_base64 bytes }, none)
  unfolding finish_dynamic
  finish_dynamic_lem creator bytes cr sum id hash made =
      ground (arith, make_secret_lem cr bytes sum hash)

  validate_secret_sound :
      (cr : ClientRegistration) (secret : String) (sum : String → String)
      → SecretLaws lib secret
      → lib.blake2b_512 secret ≡ some sum
      → cr.dynamic ≡ true
      → subject_of sum lib cr.name ≢ ""
      → cr.secret ≡ subject_of sum lib cr.name
      → validate_secret lib cr (lib.encode_base64 secret) ≡ ok true
  unfolding validate_secret
  validate_secret_sound cr secret sum laws hash dynamic some_subject same = ground (
    arith,
    make_secret_lem cr secret sum hash,
    laws.decode_encode,
    eq_iff cr.secret "",
    eq_iff (subject_of sum lib cr.name) cr.secret,
  )

  set_dynamic_made :
      (ctx : DynamicContext) (cr : ClientRegistration)
      → (creator : RegistrationClaims → Result String) (duration : ℕ) → ctx.creator ≡ some creator
      → ctx.registry ≡ some duration
      → cr.id ≡ ""
      → set_dynamic lib ctx cr
        ≡ finish_dynamic lib creator ctx.random_bytes (start_dynamic ctx.now duration cr)
  unfolding set_dynamic
  set_dynamic_made ctx cr creator duration has_creator has_registry fresh =
      ground (arith, eq_iff cr.id "")

  -- A client that registers itself gets in with the secret that it is given. Where the creator of ids, the
  -- registry and the hash do not fail, a client with no id leaves SetDynamic with the prefixed id and
  -- the encoded random bytes as its secret; and a dynamic registration of the same name, with the subject
  -- that the creator was given in place of the secret, passes validateSecret with that secret.
  pub validate_secret-set_dynamic :
      (ctx : DynamicContext) (cr back : ClientRegistration) (sum : String → String)
      → (creator : RegistrationClaims → Result String) (duration : ℕ) (id : String)
      → SecretLaws lib ctx.random_bytes
      → ctx.creator ≡ some creator
      → ctx.registry ≡ some duration
      → cr.id ≡ ""
      → lib.blake2b_512 ctx.random_bytes ≡ some sum
      → subject_of sum lib cr.name ≢ ""
      → creator (dynamic_claims (subject_of sum lib cr.name) (start_dynamic ctx.now duration cr))
        ≡ ok id
      → back.name ≡ cr.name
      → (set_dynamic lib ctx cr ≡ (
        record (start_dynamic ctx.now duration cr) {
          id = String.◌++◌ dynamic_prefix id;
          secret = lib.encode_base64 ctx.random_bytes;
        },
        none,
      ))
        × (validate_secret lib
              (record back { secret = subject_of sum lib cr.name; dynamic = true })
              (lib.encode_base64 ctx.random_bytes)
            ≡ ok true)
  unfolding start_dynamic
  validate_secret-set_dynamic ctx cr back sum creator duration id laws has_creator has_registry
        fresh hash some_subject made same =
      (
        set_dynamic_made ctx cr creator duration has_creator has_registry fresh
            ∙ finish_dynamic_lem creator ctx.random_bytes (start_dynamic ctx.now duration cr) sum id
                hash made,
        validate_secret_sound (record back { secret = subject_of sum lib cr.name; dynamic = true })
            ctx.random_bytes sum laws hash refl (rw same some_subject) (rw same refl),
      )
