-- ===== src/Clients/Registry/Redirects.antt =====
-- Which redirect URIs a registration accepts.
use lico.Base.{
  String, Bool, true, false, none, some, List, [], ◌∷◌, ◌==◌, ◌||◌, ◌&&◌, ◌≡◌, refl, ◌↔◌, eq_of_ne,
  arith, eq_iff,
}
use lico.Base.Lists.{contains, is_empty, any}
use Prim.Native.String
use lico.Errors.{failure, ok, guard, >>-eq-ok}
use lico.Url.{UrlLib}
use lico.Oidc.{Oidc, OidcLaws}
use lico.Clients.{ClientRegistration, ClientLib, is_local_native_http_uri}
use lico.Clients.Registry.{
  redirect_round, redirect_loop, check_redirect, check_origin, check_secret, validate,
}

module _ (o : Oidc) (lib : UrlLib) where
  -- A loopback registration of a native client accepts any loopback URI, at any port, with its path if
  -- it has one.
  abbrev pub is_loopback_match : String → String → Bool
  is_loopback_match redirect_uri registered = elim (lib.parse registered) [
    | none ↦ false
    | some reg ↦ elim (lib.parse redirect_uri) [
      | none ↦ false
      | some uri ↦
          is_local_native_http_uri lib reg
          && is_local_native_http_uri lib uri
          && (reg.path == "" || uri.path == reg.path)
    ]
  ]

  -- A registered URI accepts the redirect URI: the same text, or for native clients a loopback match.
  abbrev pub is_match : Bool → String → String → Bool
  is_match native redirect_uri registered =
      registered == redirect_uri || (native && is_loopback_match redirect_uri registered)

  redirect_loop_sound :
      (native : Bool) (redirect_uri : String) (uris : List String)
      → redirect_loop o lib native redirect_uri uris ≡ ok true
      → any (is_match native redirect_uri) uris ≡ true
  unfolding redirect_loop redirect_round
  redirect_loop_sound native redirect_uri [] h = cc
  redirect_loop_sound native redirect_uri (uri ∷ uris) h =
      ground (arith, redirect_loop_sound native redirect_uri uris)

  redirect_loop_web :
      (redirect_uri : String) (uris : List String)
      → redirect_loop o lib false redirect_uri uris ≡ ok (contains redirect_uri uris)
  unfolding redirect_loop redirect_round
  redirect_loop_web redirect_uri [] = refl
  redirect_loop_web redirect_uri (uri ∷ uris) = ground (arith, redirect_loop_web redirect_uri uris)

  -- The registrations under which the redirect URI is not looked at.
  abbrev pub is_unchecked : ClientRegistration → String → Bool
  is_unchecked client redirect_uri =
      redirect_uri == "" || (client.insecure && is_empty client.redirect_uris)

  check_redirect_sound :
      (client : ClientRegistration) (redirect_uri : String)
      → check_redirect o lib client redirect_uri ≡ ok tt
      → is_unchecked client redirect_uri ≡ false
      → any
          (is_match (client.application_type == o.application_type_native) redirect_uri)
          client.redirect_uris
        ≡ true
  unfolding check_redirect
  check_redirect_sound client redirect_uri h checked =
      let native = client.application_type == o.application_type_native in
      ground (arith, redirect_loop_sound native redirect_uri client.redirect_uris)

  -- A client that passes Validate with a redirect URI has registered a URI that matches it: the very
  -- text, or, for a native client, a loopback URI with the same path or none. The exceptions are an
  -- empty redirect URI, and an insecure client that has registered none.
  pub validate-redirect :
      (clib : ClientLib) (client : ClientRegistration) (client_secret redirect_uri origin : String)
      → (without_secret : Bool)
      → validate o lib clib client client_secret redirect_uri origin without_secret ≡ ok tt
      → is_unchecked client redirect_uri ≡ false
      → any
          (is_match (client.application_type == o.application_type_native) redirect_uri)
          client.redirect_uris
        ≡ true
  unfolding validate
  validate-redirect clib client client_secret redirect_uri origin without_secret h checked =
      let (_, rest) = >>-eq-ok (check_origin o lib client origin) _ h in
      let (redirect, _) = >>-eq-ok (check_redirect o lib client redirect_uri) _ rest in
      check_redirect_sound client redirect_uri redirect checked

  -- The tests of Validate on a web client.
  abbrev pub is_web_request : ClientRegistration → String → String → Bool
  is_web_request client redirect_uri origin =
      (origin == ""
        || (client.insecure && is_empty client.origins)
        || contains origin client.origins)
      && (is_unchecked client redirect_uri || contains redirect_uri client.redirect_uris)

  check_origin_web :
      (client : ClientRegistration) (origin : String)
      → client.application_type ≡ o.application_type_web
      → check_origin o lib client origin
        ≡ guard
            (origin == ""
              || (client.insecure && is_empty client.origins)
              || contains origin client.origins)
            (failure (String.◌++◌ "invalid origin: " origin))
  unfolding check_origin
  check_origin_web client origin web =
      ground (arith, eq_iff client.application_type o.application_type_web)

  check_redirect_web :
      (client : ClientRegistration) (redirect_uri : String)
      → (client.application_type == o.application_type_native) ≡ false
      → check_redirect o lib client redirect_uri
        ≡ guard
            (is_unchecked client redirect_uri || contains redirect_uri client.redirect_uris)
            (failure (String.◌++◌ "invalid redirect_uri: " redirect_uri))
  unfolding check_redirect
  check_redirect_web client redirect_uri web =
      rw web (ground (arith, redirect_loop_web redirect_uri client.redirect_uris))

  web_not_native :
      OidcLaws o
      → (client : ClientRegistration) → client.application_type ≡ o.application_type_web
      → (client.application_type == o.application_type_native) ≡ false
  web_not_native laws client web =
      rw web (eq_of_ne o.application_type_web o.application_type_native laws.applications_differ)

  -- A web client passes Validate exactly if the origin is one that it registered, the redirect URI is,
  -- character by character, one that it registered, and the secret passes. An empty origin and an empty
  -- redirect URI pass, and so does any for an insecure client that registered none.
  pub validate_web :
      (laws : OidcLaws o) (clib : ClientLib) (client : ClientRegistration)
      → (client_secret redirect_uri origin : String) (without_secret : Bool)
      → client.application_type ≡ o.application_type_web
      → (validate o lib clib client client_secret redirect_uri origin without_secret ≡ ok tt) ↔ (
          (is_web_request client redirect_uri origin ≡ true)
          × (check_secret o lib clib client client_secret without_secret ≡ ok tt))
  unfolding validate
  validate_web laws clib client client_secret redirect_uri origin without_secret web =
      rw
        (
          check_origin_web client origin web,
          check_redirect_web client redirect_uri (web_not_native laws client web),
        )
        (ground arith, λ h. ground arith)
