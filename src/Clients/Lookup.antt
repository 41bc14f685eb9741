-- ===== src/Clients/Lookup.antt =====
-- identity/clients/registry.go: Lookup, Get and the clients whose registration is in their id.
pub mod Trust
use Prim.Native.String
use lico.Base.{
  ℕ, String, Bool, true, false, Option, none, some, List, [], ◌∷◌, ◌==◌, ◌||◌, ◌&&◌, not,
  if◌then◌else◌, leb, starts_with,
}
use lico.Base.Dict.{Dict, get}
use lico.Errors.{GoError, failure, Result, ok, err, panic, ◌>>=◌, ◌>>◌, deref}
use lico.Url.{Url, UrlLib}
use lico.Jwt.{Token, Key}
use lico.Oidc.{Oidc}
use lico.Clients.{ClientRegistration, RegistrationClaims, Details, ClientLib, dynamic_prefix}
use lico.Clients.Registry.{Registry, validate}

-- jwt.ParseWithClaims at the claims of a client id, given the key function
abbrev pub ParseClientId : Type 0
ParseClientId = String → (Token RegistrationClaims → Result Key) → Result (Token RegistrationClaims)

-- The key function of getDynamicClient.
unfoldable pub client_id_key : Registry → Token RegistrationClaims → Result Key
client_id_key r token = elim r.stateless_validator [
  | none ↦ err (failure "no validator for dynamic client ids")
  | some validator ↦ validator token
]

-- The registration of a parsed client id; the embedded pointer may be nil.
unfoldable pub dynamic_registration : String → RegistrationClaims → Result ClientRegistration
dynamic_registration client_id claims = do
  registration ← deref claims.registration
  ok (record registration { id = client_id; secret = claims.subject; dynamic = true })

-- getDynamicClient
unfoldable pub get_dynamic_client :
    ParseClientId → Registry → String → Result (Option ClientRegistration)
unfolding client_id_key dynamic_registration
get_dynamic_client parse r client_id =
    if leb (String.len dynamic_prefix) (String.len client_id)
    then elim (parse (String.slice client_id (String.len dynamic_prefix) (String.len client_id))
        (client_id_key r)) [
          | ok token ↦ do
            registration ← dynamic_registration client_id token.claims
            ok (some registration)
          | err e ↦ ok none
          | panic ↦ panic
        ]
    else ok none

-- Get
unfoldable pub get_client : ParseClientId → Registry → String → Result (Option ClientRegistration)
unfolding get_dynamic_client
get_client parse r client_id = elim (get client_id r.clients) [
  | some registration ↦ ok (some registration)
  | none ↦ get_dynamic_client parse r client_id
]

-- The comparison of scheme and host in Lookup.
abbrev pub same_origin : Url → Url → Bool
same_origin a b = a.scheme == b.scheme && a.host == b.host

-- &url.URL{Scheme, Host, Path}
abbrev pub base_of : Url → Url
base_of uri = record { scheme = uri.scheme; host = uri.host; path = uri.path; rest = "" }

module _ (o : Oidc) (lib : UrlLib) (clib : ClientLib) (parse : ParseClientId) where
  -- The implicit trust of Lookup; both URLs may be nil.
  unfoldable pub is_implicitly_trusted : Registry → Option Url → String → Result Bool
  is_implicitly_trusted r redirect_uri origin = elim r.trusted_uri [
    | none ↦ ok false
    | some trusted ↦ do
      uri ← deref redirect_uri
      if not (same_origin trusted uri) then ok false else do
        origin_uri ← deref (lib.parse origin)
        ok (origin_uri.scheme == "" || same_origin trusted origin_uri)
  ]

  -- The registration that Lookup finds, and whether it had to look for a dynamic one.
  unfoldable pub find_registration : Registry → String → Result (Option ClientRegistration × Bool)
  find_registration r client_id = elim (get client_id r.clients) [
    | some registration ↦ ok (some registration, false)
    | none ↦
        if starts_with client_id dynamic_prefix
        then (do found ← get_dynamic_client parse r client_id; ok (found, true))
        else ok (none, false)
  ]

  -- What Lookup returns for a client that passed.
  abbrev pub details_of : String → Url → String → Bool → Option ClientRegistration → Details
  details_of client_id uri name trusted registration = record {
    id = client_id;
    display_name = name;
    redirect_uri = lib.to_string uri;
    trusted = trusted;
    registration = registration;
  }

  -- The end of Lookup, with the registration or without one.
  unfoldable pub finish_lookup :
      String
      → String
      → Option Url
      → String
      → Bool
      → Bool
      → Option ClientRegistration
      → Result Details
  finish_lookup client_id client_secret redirect_uri origin without_secret trusted
        (some registration) =
      do
        uri ← deref redirect_uri
        validate o lib clib registration client_secret (lib.to_string (base_of uri)) origin
            without_secret
        ok (details_of client_id uri registration.name registration.trusted (some registration))
  finish_lookup client_id client_secret redirect_uri origin without_secret true none = do
    uri ← deref redirect_uri
    ok (details_of client_id uri "" true none)
  finish_lookup client_id client_secret redirect_uri origin without_secret false none =
      err (failure (String.◌++◌ "unknown client_id: " client_id))

  -- Lookup, after the test of the client id.
  unfoldable pub lookup_named :
      Registry → String → String → Option Url → String → Bool → Result Details
  lookup_named r client_id client_secret redirect_uri origin without_secret = do
    trusted ← is_implicitly_trusted r redirect_uri origin
    (registration, dynamic) ← find_registration r client_id
    finish_lookup client_id client_secret redirect_uri origin without_secret
        (trusted && not dynamic) registration

  -- Lookup
  unfoldable pub lookup : Registry → String → String → Option Url → String → Bool → Result Details
  lookup r client_id client_secret redirect_uri origin without_secret =
      if client_id == ""
      then err (failure "invalid client_id")
      else lookup_named r client_id client_secret redirect_uri origin without_secret
