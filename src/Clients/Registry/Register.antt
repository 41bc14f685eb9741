-- ===== src/Clients/Registry/Register.antt =====
-- What every client in the registry satisfies.
use lico.Base.{
  String, Bool, true, false, some, List, [], ◌∷◌, ◌==◌, ◌||◌, not, ◌≡◌, ◌≢◌, refl, ap, ◌⊎◌, inl,
  inr, arith, eq_iff, Option-cases, Bool-cases,
}
use mathlib.Core.Path.{subst}
use lico.Base.Lists.{All, is_empty}
use lico.Base.Dict.{get, put, get-put}
use lico.Errors.{failure, Result, ok, err, panic, ◌>>=◌, guard, >>=-eq-ok, >>-eq-ok, guard-eq-ok}
use lico.Url.{Url, UrlLib}
use lico.Oidc.{Oidc}
use lico.Clients.{ClientRegistration, is_local_native_http_uri}
use lico.Clients.Registry.{
  Registry, web_uri, web_uris, native_uri, native_uris, keep_origins, register_web, register_client,
  register, store_client, registered_or, register_all,
}

guard_ne : (id : String) → guard (not (id == "")) (failure "invalid client_id") ≡ ok tt → id ≢ ""
guard_ne id h = ground (arith, eq_iff id "")

module _ (o : Oidc) (lib : UrlLib) where
  -- A redirect URI of a web client: it has a host, it is no loopback URI over http, and it is https unless
  -- the client is insecure.
  abbrev pub IsWebUri : Bool → String → Type 0
  IsWebUri insecure text =
      (uri : Url) × (lib.parse text ≡ some uri)
      × (uri.host ≢ "")
      × (is_local_native_http_uri lib uri ≡ false)
      × ((insecure ≡ true) ⊎ (uri.scheme ≡ "https"))

  -- A redirect URI of a native client: it has a host, it is not https, and http only as a loopback URI.
  abbrev pub IsNativeUri : String → Type 0
  IsNativeUri text =
      (uri : Url) × (lib.parse text ≡ some uri)
      × (uri.host ≢ "")
      × (uri.scheme ≢ "https")
      × ((uri.scheme ≢ "http") ⊎ (is_local_native_http_uri lib uri ≡ true))

  web_uri_sound :
      (insecure : Bool) (text : String) (parsed : Url)
      → web_uri o lib insecure text ≡ ok parsed
      → IsWebUri insecure text
  unfolding web_uri
  web_uri_sound insecure text parsed h = elim (Option-cases (lib.parse text)) [
    | inl missing ↦ absurd (ground arith)
    | inr (uri, found) ↦ (
      uri,
      found,
      ground (arith, eq_iff uri.host ""),
      ground arith,
      ground (arith, eq_iff uri.scheme "https"),
    )
  ]

  native_uri_sound :
      (text : String) (parsed : Url) → native_uri o lib text ≡ ok parsed → IsNativeUri text
  unfolding native_uri
  native_uri_sound text parsed h = elim (Option-cases (lib.parse text)) [
    | inl missing ↦ absurd (ground arith)
    | inr (uri, found) ↦ (
      uri,
      found,
      ground (arith, eq_iff uri.host ""),
      ground (arith, eq_iff uri.scheme "https"),
      ground (arith, eq_iff uri.scheme "http"),
    )
  ]

  web_uris_sound :
      (insecure : Bool) (uris origins left : List String)
      → web_uris o lib insecure uris origins ≡ ok left
      → All (IsWebUri insecure) uris
  unfolding web_uris
  web_uris_sound insecure [] origins left h = tt
  web_uris_sound insecure (uri ∷ uris) origins left h =
      let (parsed, e, rest) = >>=-eq-ok (web_uri o lib insecure uri) _ h in
      (web_uri_sound insecure uri parsed e, web_uris_sound insecure uris _ left rest)

  native_uris_sound : (uris : List String) → native_uris o lib uris ≡ ok tt → All IsNativeUri uris
  unfolding native_uris
  native_uris_sound [] h = tt
  native_uris_sound (uri ∷ uris) h =
      let (parsed, e, rest) = >>=-eq-ok (native_uri o lib uri) _ h in
      (native_uri_sound uri parsed e, native_uris_sound uris rest)

  -- What a stored registration satisfies: it has a redirect URI unless it is insecure, and it is a web
  -- client with web URIs, and an origin unless it is insecure, or a native client with native URIs.
  pub record IsSound (client : ClientRegistration) : Type 0 where
    pub redirects : (client.insecure ≡ true) ⊎ (is_empty client.redirect_uris ≡ false)
    pub by_type :
        ((client.application_type ≡ o.application_type_web)
          × All (IsWebUri client.insecure) client.redirect_uris
          × ((client.insecure ≡ true) ⊎ (is_empty client.origins ≡ false)))
        ⊎ ((client.application_type ≡ o.application_type_native)
            × All IsNativeUri client.redirect_uris)

  web_stored-IsSound :
      (client stored : ClientRegistration) (origins : List String)
      → client.application_type ≡ o.application_type_web
      → (client.insecure || not (is_empty client.redirect_uris)) ≡ true
      → All (IsWebUri client.insecure) client.redirect_uris
      → (client.insecure || not (is_empty origins)) ≡ true
      → record client { origins = origins } ≡ stored
      → IsSound stored
  web_stored-IsSound client stored origins web some_uri uris has_origin e =
      subst IsSound e (record { redirects = ground arith; by_type = inl (web, uris, ground arith) })

  native_registered :
      (client stored : ClientRegistration)
      → (native_uris o lib client.redirect_uris >>= λ _. ok client) ≡ ok stored
      → (native_uris o lib client.redirect_uris ≡ ok tt) × (client ≡ stored)
  native_registered client stored h =
      let (a, e) = >>-eq-ok (native_uris o lib client.redirect_uris) (ok client) h in
      (a, ground arith)

  keep_origins-IsSound :
      (client stored : ClientRegistration) (origins : List String)
      → client.application_type ≡ o.application_type_web
      → (client.insecure || not (is_empty client.redirect_uris)) ≡ true
      → All (IsWebUri client.insecure) client.redirect_uris
      → keep_origins o lib client origins ≡ ok stored
      → IsSound stored
  unfolding keep_origins
  keep_origins-IsSound client stored origins web some_uri uris h =
      web_stored-IsSound client stored origins web some_uri uris (ground arith) (ground arith)

  register_web-IsSound :
      (client stored : ClientRegistration)
      → client.application_type ≡ o.application_type_web
      → (client.insecure || not (is_empty client.redirect_uris)) ≡ true
      → register_web o lib client ≡ ok stored
      → IsSound stored
  unfolding register_web
  register_web-IsSound client stored web some_uri h =
      let (origins, uris, kept) =
        >>=-eq-ok (web_uris o lib client.insecure client.redirect_uris client.origins)
          (keep_origins o lib client) h in
      keep_origins-IsSound client stored origins web some_uri
        (web_uris_sound client.insecure client.redirect_uris client.origins origins uris) kept

  register_client-IsSound :
      (client stored : ClientRegistration)
      → (client.insecure || not (is_empty client.redirect_uris)) ≡ true
      → register_client o lib client ≡ ok stored
      → IsSound stored
  unfolding register_client
  register_client-IsSound client stored some_uri h =
      elim (Bool-cases
        (client.application_type == "" || client.application_type == o.application_type_web)) [
          | inl web ↦
              register_web-IsSound (record client { application_type = o.application_type_web })
                stored refl some_uri (ground arith)
          | inr other ↦ elim (Bool-cases (client.application_type == o.application_type_native)) [
            | inl native ↦
                let (checked, e) = native_registered client stored (ground arith) in
                subst IsSound e (record {
                  redirects = ground arith;
                  by_type =
                      inr ((eq_iff _ _).0 native, native_uris_sound client.redirect_uris checked);
                })
            | inr unknown ↦ absurd (ground arith)
          ]
        ]

  -- The registry's invariant: under each client id stands a sound registration of that id.
  pub record IsSoundRegistry (r : Registry) : Type 0 where
    pub at_id :
        (id : String) (client : ClientRegistration)
        → get id r.clients ≡ some client
        → IsSound client × (client.id ≡ id) × (id ≢ "")

  stored_registry :
      (id : String) (r r' : Registry) (stored : ClientRegistration)
      → store_client o lib id r stored ≡ ok r'
      → r' ≡ record r { clients = put id stored r.clients }
  unfolding store_client
  stored_registry id r r' stored h = ground arith

  register_sound :
      (client : ClientRegistration) (r r' : Registry)
      → register o lib client r ≡ ok r'
      → (stored : ClientRegistration) × (register_client o lib client ≡ ok stored)
        × (r' ≡ record r { clients = put client.id stored r.clients })
        × (client.id ≢ "")
        × ((client.insecure || not (is_empty client.redirect_uris)) ≡ true)
  unfolding register
  register_sound client r r' h =
      let (named, rest) =
        >>-eq-ok (guard (not (client.id == "")) (failure "invalid client_id")) _ h in
      let (some_uri, rest') =
        >>-eq-ok
          (guard (client.insecure || not (is_empty client.redirect_uris))
            (failure "no redirect_uris"))
          (register_client o lib client >>= store_client o lib client.id r) rest in
      let (stored, e, kept) =
        >>=-eq-ok (register_client o lib client) (store_client o lib client.id r) rest' in
      (
        stored,
        e,
        stored_registry client.id r r' stored kept,
        guard_ne client.id named,
        guard-eq-ok _ _ some_uri,
      )

  register_client-id :
      (client stored : ClientRegistration)
      → register_client o lib client ≡ ok stored
      → stored.id ≡ client.id
  unfolding register_client register_web keep_origins
  register_client-id client stored h = ground arith

  stored-IsSound :
      (client : ClientRegistration) (r r' : Registry) (stored : ClientRegistration)
      → IsSound stored
      → stored.id ≡ client.id
      → client.id ≢ ""
      → r' ≡ record r { clients = put client.id stored r.clients }
      → IsSoundRegistry r
      → (id : String) (found : ClientRegistration) → get id r'.clients ≡ some found
      → IsSound found × (found.id ≡ id) × (id ≢ "")
  stored-IsSound client r r' stored good same_id named same sound id found at =
      let at' : get id (put client.id stored r.clients) ≡ some found = rw same at at in
      elim (Bool-cases (client.id == id)) [
        | inl here ↦
            let e : stored ≡ found = ground (arith, get-put client.id id stored r.clients) in
            let there = (eq_iff client.id id).0 here in
            (subst IsSound e good, cc (ap (λ (c : ClientRegistration). c.id) e), λ z. named (cc))
        | inr elsewhere ↦
            sound.at_id id found (ground (arith, get-put client.id id stored r.clients))
      ]

  -- Register keeps the invariant of the registry, whatever client it is given.
  pub register-IsSoundRegistry :
      (client : ClientRegistration) (r r' : Registry)
      → IsSoundRegistry r
      → register o lib client r ≡ ok r'
      → IsSoundRegistry r'
  register-IsSoundRegistry client r r' sound h =
      let (stored, e, same, named, some_uri) = register_sound client r r' h in
      record {
        at_id = λ id found at.
            stored-IsSound client r r' stored (register_client-IsSound client stored some_uri e)
              (register_client-id client stored e) named same sound id found at;
      }

  registered_or-IsSoundRegistry :
      (client : ClientRegistration) (r : Registry) (result : Result Registry)
      → register o lib client r ≡ result
      → IsSoundRegistry r
      → IsSoundRegistry (registered_or o lib r result)
  registered_or-IsSoundRegistry client r (ok r') e sound =
      register-IsSoundRegistry client r r' sound e
  registered_or-IsSoundRegistry client r (err e') e sound = sound
  registered_or-IsSoundRegistry client r panic e sound = sound

  -- From a registry with the invariant, such as the empty one, NewRegistry's loop over any list of entries leaves a registry in which
  -- every client stands under its own, non-empty id, has a redirect URI unless it is insecure, and has
  -- only redirect URIs that its application type allows.
  pub register_all-IsSoundRegistry :
      (clients : List ClientRegistration) (r : Registry)
      → IsSoundRegistry r
      → IsSoundRegistry (register_all o lib clients r)
  unfolding register_all
  register_all-IsSoundRegistry [] r sound = sound
  register_all-IsSoundRegistry (client ∷ clients) r sound =
      register_all-IsSoundRegistry clients (registered_or o lib r (register o lib client r))
        (registered_or-IsSoundRegistry client r (register o lib client r) refl sound)
