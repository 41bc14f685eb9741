-- ===== src/Clients/Lookup/Trust.antt =====
-- Which clients Lookup lets pass, and what it trusts.
use lico.Base.{
  String, Bool, true, false, Option, none, some, ◌&&◌, not, ◌≡◌, ◌≢◌, refl, ◌⊎◌, inl, inr, arith,
  eq_iff, starts_with, Option-cases, Bool-cases, then_of, else_of, leb,
}
use Prim.Native.String
use lico.Base.Dict.{get}
use lico.Jwt.{Token}
use lico.Errors.{Result, ok, err, panic, ◌>>=◌, deref, deref-eq-ok, >>=-eq-ok}
use lico.Url.{Url, UrlLib}
use lico.Oidc.{Oidc}
use lico.Clients.{ClientRegistration, RegistrationClaims, Details, ClientLib, dynamic_prefix}
use lico.Clients.Registry.{Registry, validate}
use lico.Clients.Lookup.{
  ParseClientId, is_implicitly_trusted, find_registration, base_of, finish_lookup, client_id_key,
  dynamic_registration, get_dynamic_client, lookup_named, lookup,
}

module _ (o : Oidc) (lib : UrlLib) (clib : ClientLib) (parse : ParseClientId) where
  -- Whose registration it is: that under the client id, or, where there is none and the id has the prefix
  -- of a dynamic client, that in the token which the rest of the id parses to, with the id and the subject
  -- of the token as its secret.
  abbrev pub IsRegistered : Registry → String → ClientRegistration → Type 0
  IsRegistered r client_id cr =
      (get client_id r.clients ≡ some cr)
      ⊎ ((get client_id r.clients ≡ none)
          × (starts_with client_id "dyn." ≡ true)
          × (token : Token RegistrationClaims) × (inner : ClientRegistration) × (parse
                (String.slice client_id (String.len "dyn.") (String.len client_id))
                (client_id_key r)
              ≡ ok token)
          × (token.claims.registration ≡ some inner)
          × (cr ≡ record inner { id = client_id; secret = token.claims.subject; dynamic = true }))

  -- Why Lookup let a client pass.
  pub record IsAccepted (r : Registry) (client_id client_secret origin : String) (uri : Url)
      (without_secret : Bool) (d : Details) : Type 0 where
    pub named : client_id ≢ ""
    pub same_id : d.id ≡ client_id
    pub redirect : d.redirect_uri ≡ lib.to_string uri
    pub why :
        ((cr : ClientRegistration) × (d.registration ≡ some cr)
          × IsRegistered r client_id cr
          × (d.trusted ≡ cr.trusted)
          × (validate o lib clib cr client_secret
                (lib.to_string
                  (record { scheme = uri.scheme; host = uri.host; path = uri.path; rest = "" }))
                origin
                without_secret
              ≡ ok tt))
        ⊎ ((d.registration ≡ none)
            × (get client_id r.clients ≡ none)
            × (starts_with client_id "dyn." ≡ false)
            × (own : Url) × (r.trusted_uri ≡ some own)
            × (own.scheme ≡ uri.scheme)
            × (own.host ≡ uri.host))

  get_dynamic_client-IsRegistered :
      (r : Registry) (client_id : String) (cr : ClientRegistration)
      → get client_id r.clients ≡ none
      → starts_with client_id "dyn." ≡ true
      → get_dynamic_client parse r client_id ≡ ok (some cr)
      → IsRegistered r client_id cr
  unfolding get_dynamic_client dynamic_registration
  get_dynamic_client-IsRegistered r client_id cr absent prefixed h =
      elim (Bool-cases (leb (String.len dynamic_prefix) (String.len client_id))) [
        | inr short ↦ absurd (cc (else_of _ short h))
        | inl long ↦
            parsed
              (parse (String.slice client_id (String.len dynamic_prefix) (String.len client_id))
                (client_id_key r))
              refl (then_of _ long h)
      ]
    where
      parsed :
          (p : Result (Token RegistrationClaims))
          → parse
              (String.slice client_id (String.len dynamic_prefix) (String.len client_id))
              (client_id_key r)
            ≡ p
          → elim p [
            | ok token ↦ do
              registration ← dynamic_registration client_id token.claims
              ok (some registration)
            | err e ↦ ok none
            | panic ↦ panic
          ]
            ≡ ok (some cr)
          → IsRegistered r client_id cr
      parsed (ok token) same h =
          let (made, dynamic, is_cr) =
            >>=-eq-ok (dynamic_registration client_id token.claims) _ h in
          let (inner, present, same_made) = >>=-eq-ok (deref token.claims.registration) _ dynamic in
          inr (
            absent,
            prefixed,
            token,
            inner,
            same,
            deref-eq-ok token.claims.registration present,
            cc (is_cr, same_made),
          )
      parsed (err e) same h = cc
      parsed panic same h = cc

  find_registration-IsRegistered :
      (r : Registry) (client_id : String) (cr : ClientRegistration) (dynamic : Bool)
      → find_registration o lib clib parse r client_id ≡ ok (some cr, dynamic)
      → IsRegistered r client_id cr
  unfolding find_registration
  find_registration-IsRegistered r client_id cr dynamic h =
      elim (Option-cases (get client_id r.clients)) [
        | inr (found, present) ↦
            inl (let h1 = rw (find_registration, present) at h in cc (present, h1))
        | inl absent ↦
            let h1 = rw (find_registration, absent) at h in
            elim (Bool-cases (starts_with client_id dynamic_prefix)) [
              | inr other ↦ absurd (cc (else_of _ other h1))
              | inl prefixed ↦
                  let (found, finds, same) =
                    >>=-eq-ok (get_dynamic_client parse r client_id) _ (then_of _ prefixed h1) in
                  get_dynamic_client-IsRegistered r client_id cr absent prefixed (cc (finds, same))
            ]
      ]

  finish_known :
      (cr : ClientRegistration) (client_id client_secret origin : String)
      → (redirect_uri : Option Url) (without_secret trusted : Bool) (d : Details)
      → finish_lookup o lib clib parse client_id client_secret redirect_uri origin without_secret
          trusted
          (some cr)
        ≡ ok d
      → (uri : Url) × (redirect_uri ≡ some uri)
        × (validate o lib clib cr client_secret (lib.to_string (base_of uri)) origin without_secret
            ≡ ok tt)
        × (d.redirect_uri ≡ lib.to_string uri)
        × (d.registration ≡ some cr)
        × (d.trusted ≡ cr.trusted)
        × (d.id ≡ client_id)
  unfolding finish_lookup
  finish_known cr client_id client_secret origin none without_secret trusted d h = cc
  finish_known cr client_id client_secret origin (some uri) without_secret trusted d h =
      let (_, valid, e) = >>=-eq-ok _ _ h in
      (uri, refl, valid, ground arith, ground arith, ground arith, ground arith)

  trusted_own :
      (r : Registry) (redirect_uri : Option Url) (origin : String)
      → is_implicitly_trusted o lib clib parse r redirect_uri origin ≡ ok true
      → (own : Url) × (r.trusted_uri ≡ some own)
        × ((uri : Url) × (redirect_uri ≡ some uri)
            × ((own.scheme ≡ uri.scheme) × (own.host ≡ uri.host)))
  unfolding is_implicitly_trusted
  trusted_own r redirect_uri origin h = elim (Option-cases r.trusted_uri) [
    | inl missing ↦ absurd (ground arith)
    | inr (own, present) ↦ elim (Option-cases redirect_uri) [
      | inl missing ↦ absurd (ground arith)
      | inr (uri, given) ↦ (
        own,
        present,
        (uri, given, ground (arith, eq_iff own.scheme uri.scheme, eq_iff own.host uri.host)),
      )
    ]
  ]

  find_undynamic :
      (r : Registry) (client_id : String)
      → find_registration o lib clib parse r client_id ≡ ok (none, false)
      → (get client_id r.clients ≡ none) × (starts_with client_id "dyn." ≡ false)
  unfolding find_registration
  find_undynamic r client_id h = (ground arith, ground arith)

  finish-IsAccepted :
      (r : Registry) (client_id client_secret origin : String) (redirect_uri : Option Url)
      → (without_secret trusted dynamic : Bool) (registration : Option ClientRegistration)
        (d : Details)
      → client_id ≢ ""
      → is_implicitly_trusted o lib clib parse r redirect_uri origin ≡ ok trusted
      → find_registration o lib clib parse r client_id ≡ ok (registration, dynamic)
      → finish_lookup o lib clib parse client_id client_secret redirect_uri origin without_secret
          (trusted && not dynamic)
          registration
        ≡ ok d
      → (uri : Url) × (redirect_uri ≡ some uri)
        × IsAccepted r client_id client_secret origin uri without_secret d
  finish-IsAccepted r client_id client_secret origin redirect_uri without_secret trusted dynamic
        (some cr) d named t f h =
      let (uri, given, valid, redirect, known, trust, same_id) =
        finish_known cr client_id client_secret origin redirect_uri without_secret
          (trusted && not dynamic) d h in
      (
        uri,
        given,
        record {
          named = named;
          same_id = same_id;
          redirect = redirect;
          why =
              inl
                (cr, known, find_registration-IsRegistered r client_id cr dynamic f, trust, valid);
        },
      )
  finish-IsAccepted r client_id client_secret origin redirect_uri without_secret true false none d
        named t f h =
      let (own, mine, (uri, given, (same_scheme, same_host))) =
        trusted_own r redirect_uri origin t in
      let (absent, undynamic) = find_undynamic r client_id f in
      let e = rw given at h in
      (
        uri,
        given,
        record {
          named = named;
          same_id = unfold finish_lookup in ground arith;
          redirect = unfold finish_lookup in ground arith;
          why = inr (
            unfold finish_lookup in ground arith,
            absent,
            undynamic,
            own,
            mine,
            same_scheme,
            same_host,
          );
        },
      )
  finish-IsAccepted r client_id client_secret origin redirect_uri without_secret true true none d
        named t f h =
      absurd (unfold finish_lookup in ground arith)
  finish-IsAccepted r client_id client_secret origin redirect_uri without_secret false dynamic none
        d named t f h =
      absurd (unfold finish_lookup in ground arith)

  -- A client that Lookup lets pass is known, by a registration under its id or by the one that its dynamic
  -- id carries, and then this registration accepts the redirect URI
  -- without its query, the origin and the secret, and says itself whether it is trusted; or it is
  -- unknown, its id has not the prefix of a dynamic client, and it redirects to the scheme and the host
  -- of the provider. The redirect URI is given, and the details carry it.
  pub lookup-IsAccepted :
      (r : Registry) (client_id client_secret origin : String) (redirect_uri : Option Url)
      → (without_secret : Bool) (d : Details)
      → lookup o lib clib parse r client_id client_secret redirect_uri origin without_secret ≡ ok d
      → (uri : Url) × (redirect_uri ≡ some uri)
        × IsAccepted r client_id client_secret origin uri without_secret d
  unfolding lookup lookup_named
  lookup-IsAccepted r client_id client_secret origin redirect_uri without_secret d h =
      let named : lookup_named o lib clib parse r client_id client_secret redirect_uri origin
            without_secret
          ≡ ok d =
        ground arith in
      let (trusted, t, e) = >>=-eq-ok _ _ named in
      let (found, f, e') = >>=-eq-ok _ _ e in
      finish-IsAccepted r client_id client_secret origin redirect_uri without_secret trusted found.1
        found.0 d (ground (arith, eq_iff client_id "")) t f e'
