-- ===== src/Clients/Registry.antt =====
-- identity/clients/registry.go: the registry of clients.
pub mod Register
pub mod Redirects
use Prim.Native.String
use Prim.Native.Nat.{compare}
use lico.Base.{
  ℕ, String, Bool, true, false, Option, none, some, List, [], ◌∷◌, ◌==◌, ◌||◌, ◌&&◌, not,
  if◌then◌else◌, leb, starts_with, is_some,
}
use lico.Base.Lists.{is_empty, contains}
use lico.Base.Dict.{Dict, get, put}
use lico.Errors.{GoError, failure, Result, ok, err, panic, ◌>>=◌, guard, deref, ◌>>◌, value_of}
use lico.Url.{Url, UrlLib}
use lico.Jwt.{Token, Key}
use lico.Oidc.{Oidc}
use lico.Clients.{
  ClientRegistration, RegistrationClaims, Details, ClientLib, dynamic_prefix,
  is_local_native_http_uri, is_local_native_host_uri, validate_secret,
}

-- Registry. The creator and the validator of stateless clients are functions of the provider.
pub record Registry : Type 0 where
  pub trusted_uri : Option Url
  pub clients : Dict ClientRegistration
  pub allow_dynamic_client_registration : Bool
  pub dynamic_client_secret_duration : ℕ
  pub stateless_validator : Option (Token RegistrationClaims → Result Key)

infixr 60 ◌+++◌
abbrev ◌+++◌ : String → String → String
a +++ b = String.◌++◌ a b

module _ (o : Oidc) (lib : UrlLib) where
  -- scheme://host
  abbrev pub origin_of : Url → String
  origin_of uri = uri.scheme +++ "://" +++ uri.host

  -- The tests of Register on one redirect URI of a web client.
  unfoldable pub web_uri : Bool → String → Result Url
  web_uri insecure uri = elim (lib.parse uri) [
    | none ↦ err (failure ("invalid redirect_uri " +++ uri +++ " - invalid or no hostname"))
    | some parsed ↦
        if parsed.host == ""
        then err (failure ("invalid redirect_uri " +++ uri +++ " - invalid or no hostname"))
        else if not insecure && not (parsed.scheme == "https")
        then err (
            failure (
              "invalid redirect_uri "
              +++ lib.to_string parsed
              +++ " - make sure to use https when application_type is web"))
        else if is_local_native_http_uri lib parsed
        then err (
            failure (
              "invalid redirect_uri "
              +++ lib.to_string parsed
              +++ " - host must not be localhost when application_type is web"))
        else ok parsed
  ]

  -- The loop of Register over a web client's redirect URIs, which may add an origin.
  unfoldable pub web_uris : Bool → List String → List String → Result (List String)
  web_uris insecure [] origins = ok origins
  web_uris insecure (uri ∷ uris) origins = do
    parsed ← web_uri insecure uri
    web_uris insecure uris (if is_empty origins then origin_of parsed ∷ [] else origins)

  -- The tests of Register on one redirect URI of a native client.
  unfoldable pub native_uri : String → Result Url
  native_uri uri = elim (lib.parse uri) [
    | none ↦ err (failure ("invalid redirect_uri " +++ uri +++ " - invalid uri or no hostname"))
    | some parsed ↦
        if parsed.host == ""
        then err (failure ("invalid redirect_uri " +++ uri +++ " - invalid uri or no hostname"))
        else if parsed.scheme == "https"
        then err (
            failure (
              "invalid redirect_uri "
              +++ lib.to_string parsed
              +++ " - scheme must not be https when application_type is native"))
        else if parsed.scheme == "http" && not (is_local_native_http_uri lib parsed)
        then err (
            failure (
              "invalid redirect_uri "
              +++ lib.to_string parsed
              +++ " = http host must be localhost when application_type is native"))
        else ok parsed
  ]

  unfoldable pub native_uris : List String → Result (Unit {0})
  native_uris [] = ok tt
  native_uris (uri ∷ uris) = do native_uri uri; native_uris uris

  -- The end of the case of Register for web clients, with the origins that its loop left.
  unfoldable pub keep_origins : ClientRegistration → List String → Result ClientRegistration
  keep_origins client origins =
      if not client.insecure && is_empty origins
      then err (failure "no origins - origin is required when application_type is web")
      else ok (record client { origins = origins })

  -- The case of Register for web clients, whose application type is set by then.
  unfoldable pub register_web : ClientRegistration → Result ClientRegistration
  register_web client =
      web_uris client.insecure client.redirect_uris client.origins >>= keep_origins client

  -- The switch of Register on the application type: the client as it is stored.
  unfoldable pub register_client : ClientRegistration → Result ClientRegistration
  register_client client =
      if client.application_type == "" || client.application_type == o.application_type_web
      then register_web (record client { application_type = o.application_type_web })
      else if client.application_type == o.application_type_native
      then (do native_uris client.redirect_uris; ok client)
      else err (failure ("unknown application_type: " +++ client.application_type))

  -- The end of Register, which runs under the lock.
  unfoldable pub store_client : String → Registry → ClientRegistration → Result Registry
  store_client id r stored = ok (record r { clients = put id stored r.clients })

  -- Register
  unfoldable pub register : ClientRegistration → Registry → Result Registry
  register client r = do
    guard (not (client.id == "")) (failure "invalid client_id")
    guard (client.insecure || not (is_empty client.redirect_uris)) (failure "no redirect_uris")
    register_client client >>= store_client client.id r

  -- The registry after one round of the loop of NewRegistry.
  abbrev pub registered_or : Registry → Result Registry → Registry
  registered_or r (ok r') = r'
  registered_or r (err e) = r
  registered_or r panic = r

  -- The loop of NewRegistry: an entry that is refused is skipped.
  unfoldable pub register_all : List ClientRegistration → Registry → Registry
  register_all [] r = r
  register_all (client ∷ clients) r = register_all clients (registered_or r (register client r))

  -- One round of the loop of Validate over the registered redirect URIs: `some b` leaves the loop.
  unfoldable pub redirect_round : Bool → String → String → Result (Option Bool)
  redirect_round native redirect_uri registered =
      let exact : Result (Option Bool) =
        ok (if registered == redirect_uri then some true else none) in
      if native
      then elim (lib.parse registered) [
        | none ↦ panic
        | some reg ↦
            if is_local_native_http_uri lib reg
            then elim (lib.parse redirect_uri) [
              | none ↦ ok (some false)
              | some uri ↦ ok (
                  if is_local_native_http_uri lib uri && (reg.path == "" || uri.path == reg.path)
                  then some true
                  else none)
            ]
            else exact
      ]
      else exact

  unfoldable pub redirect_loop : Bool → String → List String → Result Bool
  redirect_loop native redirect_uri [] = ok false
  redirect_loop native redirect_uri (uri ∷ uris) =
      let rest = redirect_loop native redirect_uri uris in
      redirect_round native redirect_uri uri >>= λ left. elim left [ none ↦ rest | some b ↦ ok b ]

  -- The first two parts of Validate.
  unfoldable pub check_origin : ClientRegistration → String → Result (Unit {0})
  check_origin client origin =
      guard
        (not (client.application_type == o.application_type_web)
          || (origin == "" || (client.insecure && is_empty client.origins))
          || contains origin client.origins)
        (failure ("invalid origin: " +++ origin))

  unfoldable pub check_redirect : ClientRegistration → String → Result (Unit {0})
  check_redirect client redirect_uri =
      if redirect_uri == "" || (client.insecure && is_empty client.redirect_uris) then ok tt else do
        found ←
            redirect_loop (client.application_type == o.application_type_native) redirect_uri
              client.redirect_uris
        guard found (failure ("invalid redirect_uri: " +++ redirect_uri))

  unfoldable pub check_secret : ClientLib → ClientRegistration → String → Bool → Result (Unit {0})
  check_secret clib client client_secret without_secret =
      if without_secret then ok tt else elim (validate_secret clib client client_secret) [
        | ok valid ↦ guard valid (failure "invalid client_secret: <nil>")
        | err e ↦ err (failure "invalid client_secret")
        | panic ↦ panic
      ]

  -- Validate
  unfoldable pub validate :
      ClientLib → ClientRegistration → String → String → String → Bool → Result (Unit {0})
  validate clib client client_secret redirect_uri origin without_secret = do
    check_origin client origin
    check_redirect client redirect_uri
    check_secret clib client client_secret without_secret
