-- ===== src/Payload/Registration/Accepted.antt =====
-- What a client registration request that passes Validate holds.
use lico.Base.{
  ◌∙◌, ◌≢◌, Eq-cases, then_of, else_of, eq_of_ne, Option-cases, String, ◌≡◌, Bool, true, false,
  Option, none, some, List, [], ◌∷◌, ◌==◌, ◌||◌, refl, arith, eq_iff, ◌⊎◌, inl, inr,
}
use lico.Base.Lists.{any, contains, All}
use lico.Base.Dict.{Dict, keys, has, contains-keys, get-mark}
use lico.Errors.{Result, ok, err, guard, >>-eq-ok, >>=-eq-ok, guard-eq-ok}
use mathlib.Core.Path.{subst}
use lico.Url.{Url, UrlLib}
use lico.Oidc.{Oidc}
use lico.Clients.{Jwk, is_local_native_host_uri, is_local_native_http_uri}
use lico.Payload.Registration.{
  ClientRegistrationRequest, RegistrationLib, check_all, invalid_uri, invalid_metadata, required_by,
  kept_response_types, required_grant_types, marked_by, check_web_uri, check_native_uri,
  check_redirect_uris, check_keys, fill_defaults, check_grant_types, check_metadata, check_jwks,
  validate_registration, or_default, is_nonempty,
}

-- A check of all texts passes each of them.
check_all-eq-ok :
    (check : String → Result (Unit {0})) (ss : List String)
    → check_all check ss ≡ ok tt
    → All (λ s. check s ≡ ok tt) ss
unfolding check_all
check_all-eq-ok check [] h = tt
check_all-eq-ok check (s ∷ ss) h =
    let (one, rest) = >>-eq-ok (check s) (check_all check ss) h in
    (one, check_all-eq-ok check ss rest)

All-map {ℓ κ} :
    {P : String → Type ℓ} {Q : String → Type κ} (f : (s : String) → P s → Q s) (ss : List String)
    → All P ss
    → All Q ss
All-map f [] h = tt
All-map f (s ∷ ss) h = (f s h.0, All-map f ss h.1)

module _ (o : Oidc) (urls : UrlLib) where
  -- The redirect URIs of a web client parse, and with the implicit grant they are https and not local.
  abbrev pub IsWebUri : Bool → String → Type 0
  IsWebUri implicit s =
      (uri : Url) × (urls.parse s ≡ some uri)
      × (implicit ≡ true → (uri.scheme ≡ "https") × (is_local_native_host_uri urls uri ≡ false))

  -- The redirect URIs of a native client parse and are local http.
  abbrev pub IsNativeUri : String → Type 0
  IsNativeUri s =
      (uri : Url) × (urls.parse s ≡ some uri) × (is_local_native_http_uri urls uri ≡ true)

  check_web_uri-eq-ok :
      (implicit : Bool) (s : String) → check_web_uri o urls implicit s ≡ ok tt → IsWebUri implicit s
  unfolding check_web_uri
  check_web_uri-eq-ok implicit s h = elim (Option-cases (urls.parse s)) [
    | inl missing ↦ ground arith
    | inr (uri, parsed) ↦ (uri, parsed, ground (arith, eq_iff uri.scheme "https"))
  ]

  check_native_uri-eq-ok : (s : String) → check_native_uri o urls s ≡ ok tt → IsNativeUri s
  unfolding check_native_uri
  check_native_uri-eq-ok s h = elim (Option-cases (urls.parse s)) [
    | inl missing ↦ ground arith
    | inr (uri, parsed) ↦ (uri, parsed, ground arith)
  ]

  -- The key set with a key for encryption in it, wherever that stands, is rejected.
  check_keys_enc :
      (enc : Bool) (ks : List Jwk)
      → any (λ k. k.use_of == "enc") ks ≡ true
      → check_keys o enc true ks
        ≡ err (invalid_metadata o "jwks includes enc key and unset use key")
  unfolding check_keys
  check_keys_enc enc [] h = cc
  check_keys_enc enc (k ∷ ks) h =
      ground (arith, eq_iff k.use_of "", check_keys_enc (enc || k.use_of == "enc") ks)

  check_redirect_uris-eq-ok :
      (application_type : String) (implicit : Bool) (uris : List String)
      → check_redirect_uris o urls application_type implicit uris ≡ ok tt
      → ((application_type ≡ o.application_type_web) × All (IsWebUri implicit) uris)
        ⊎ ((application_type ≡ o.application_type_native) × All IsNativeUri uris)
  unfolding check_redirect_uris
  check_redirect_uris-eq-ok application_type implicit uris h =
      elim (Eq-cases application_type o.application_type_web) [
        | inl web ↦ inl (
          web,
          All-map (check_web_uri-eq-ok implicit) uris
              (check_all-eq-ok _ uris (then_of _ ((eq_iff _ _).1 web) h)),
        )
        | inr other ↦
            let h1 = else_of _ (eq_of_ne _ _ other) h in
            elim (Eq-cases application_type o.application_type_native) [
              | inl native ↦ inr (
                native,
                All-map check_native_uri-eq-ok uris
                    (check_all-eq-ok _ uris (then_of _ ((eq_iff _ _).1 native) h1)),
              )
              | inr neither ↦ cc (else_of _ (eq_of_ne _ _ neither) h1)
            ]
      ]

marked_by_keeps :
    (g : String) (by : Option (List String)) (m : Dict Bool)
    → has g m ≡ true
    → has g (marked_by by m) ≡ true
marked_by_keeps g none m h = h
marked_by_keeps g (some gs) m h = ground (arith, get-mark gs g m)

module _ (o : Oidc) where
  -- A required grant type stays required.
  required_stays :
      (g : String) (ts : List String) (m : Dict Bool)
      → has g m ≡ true
      → has g (required_grant_types o ts m) ≡ true
  unfolding required_grant_types
  required_stays g [] m h = h
  required_stays g (t ∷ ts) m h =
      required_stays g ts (marked_by (required_by o t) m) (marked_by_keeps g (required_by o t) m h)

  -- What a kept response type requires is required.
  required_of_kept :
      (g t : String) (gs : List String) (ts : List String) (m : Dict Bool)
      → contains t ts ≡ true
      → required_by o t ≡ some gs
      → contains g gs ≡ true
      → has g (required_grant_types o ts m) ≡ true
  unfolding required_grant_types
  required_of_kept g t gs [] m kept by in_gs = cc
  required_of_kept g t gs (u ∷ ts) m kept by in_gs = elim (Eq-cases u t) [
    | inl same ↦
        required_stays g ts (marked_by (required_by o u) m)
          (rw (same, by) (ground (arith, get-mark gs g m)))
    | inr other ↦
        required_of_kept g t gs ts (marked_by (required_by o u) m)
          (ground (arith, eq_of_ne u t other)) by in_gs
  ]

  kept_response_types-contains :
      (t : String) (ts : List String)
      → contains t (kept_response_types o ts) ≡ true
      → contains t ts ≡ true
  unfolding kept_response_types
  kept_response_types-contains t [] h = cc
  kept_response_types-contains t (u ∷ ts) h = ground (arith, kept_response_types-contains t ts)

  check_grant_types-eq-ok :
      (required registered : List String) (g : String)
      → check_grant_types o required registered ≡ ok tt
      → contains g required ≡ true
      → contains g registered ≡ true
  unfolding check_grant_types check_all
  check_grant_types-eq-ok [] registered g h in_required = cc
  check_grant_types-eq-ok (r ∷ required) registered g h in_required =
      let (one, rest) =
        >>-eq-ok
          (guard (contains r registered)
            (invalid_metadata o "grant_types conflict with response_types"))
          _ h in
      ground (
        arith,
        eq_iff r g,
        guard-eq-ok (contains r registered) _ one,
        check_grant_types-eq-ok required registered g rest,
      )

-- What Validate promises of the request it returns.
pub record IsAccepted (o : Oidc) (urls : UrlLib) (crr c : ClientRegistrationRequest) : Type 0 where
  pub some_uri : is_nonempty crr.redirect_uris ≡ true
  pub same_uris : c.redirect_uris ≡ crr.redirect_uris
  pub grants :
      (t : String) (gs : List String) (g : String)
      → contains t c.response_types ≡ true
      → required_by o t ≡ some gs
      → contains g gs ≡ true
      → contains g c.grant_types ≡ true
  pub uris :
      ((c.application_type ≡ o.application_type_web)
        × All (IsWebUri o urls (contains o.grant_type_implicit c.grant_types)) c.redirect_uris)
      ⊎ ((c.application_type ≡ o.application_type_native)
          × All (IsNativeUri o urls) c.redirect_uris)

module _ (o : Oidc) (urls : UrlLib) (lib : RegistrationLib) where
  fill_defaults_grants :
      (crr : ClientRegistrationRequest) (t : String) (gs : List String) (g : String)
      → check_grant_types o
          (keys (required_grant_types o (or_default o.response_type_code crr.response_types) []))
          (fill_defaults o lib crr).grant_types
        ≡ ok tt
      → contains t (fill_defaults o lib crr).response_types ≡ true
      → required_by o t ≡ some gs
      → contains g gs ≡ true
      → contains g (fill_defaults o lib crr).grant_types ≡ true
  unfolding fill_defaults
  fill_defaults_grants crr t gs g h kept by in_gs =
      let ts : List String = or_default o.response_type_code crr.response_types in
      check_grant_types-eq-ok o (keys (required_grant_types o ts [])) _ g h (
        contains-keys g (required_grant_types o ts [])
        ∙ required_of_kept o g t gs ts [] (kept_response_types-contains o t ts kept) by in_gs)

  validate_registration-eq-ok :
      (crr c : ClientRegistrationRequest)
      → validate_registration o urls lib crr ≡ ok c
      → (checked : Option (List Jwk)) × (is_nonempty crr.redirect_uris ≡ true)
        × (check_grant_types o
              (keys
                (required_grant_types o (or_default o.response_type_code crr.response_types) []))
              (fill_defaults o lib crr).grant_types
            ≡ ok tt)
        × (check_redirect_uris o urls
              (fill_defaults o lib crr).application_type
              (contains o.grant_type_implicit (fill_defaults o lib crr).grant_types)
              crr.redirect_uris
            ≡ ok tt)
        × (check_jwks o crr.jwks ≡ ok checked)
        × (record (fill_defaults o lib crr) { jwks = checked } ≡ c)
  unfolding validate_registration
  validate_registration-eq-ok crr c h =
      let filled : ClientRegistrationRequest = fill_defaults o lib crr in
      let (nonempty, h1) =
        >>-eq-ok (guard (is_nonempty crr.redirect_uris) (invalid_uri o "redirect_uris required")) _
          h in
      let (granted, h2) =
        >>-eq-ok
          (check_grant_types o
            (keys (required_grant_types o (or_default o.response_type_code crr.response_types) []))
            filled.grant_types)
          _ h1 in
      let (redirects, h3) =
        >>-eq-ok
          (check_redirect_uris o urls filled.application_type
            (contains o.grant_type_implicit filled.grant_types) crr.redirect_uris)
          _ h2 in
      let (described, h4) = >>-eq-ok (check_metadata o urls lib filled) _ h3 in
      let (checked, keyed, h5) = >>=-eq-ok (check_jwks o crr.jwks) _ h4 in
      (checked, guard-eq-ok _ _ nonempty, granted, redirects, keyed, cc h5)

  -- A request that Validate accepts has redirect URIs, and keeps them; the grant types that are left
  -- hold those that the response types that are left require; and it is a web client, whose redirect
  -- URIs are https and not local if the implicit grant is registered, or a native client, whose redirect
  -- URIs are local http.
  pub validate_registration-IsAccepted :
      (crr c : ClientRegistrationRequest)
      → validate_registration o urls lib crr ≡ ok c
      → IsAccepted o urls crr c
  validate_registration-IsAccepted crr c h =
      let (checked, nonempty, granted, redirects, keyed, same) =
        validate_registration-eq-ok crr c h in
      subst (λ d. IsAccepted o urls crr d) same
        (record {
          some_uri = nonempty;
          same_uris = unfold fill_defaults in refl;
          grants = λ t gs g. fill_defaults_grants crr t gs g granted;
          uris = unfold fill_defaults in check_redirect_uris-eq-ok o urls _ _ _ redirects;
        })

  check_jwks_enc :
      (ks : List Jwk) (checked : Option (List Jwk))
      → any (λ k. k.use_of == "enc") ks ≡ true
      → check_jwks o (some ks) ≢ ok checked
  unfolding check_jwks
  check_jwks_enc [] checked enc h = cc
  check_jwks_enc (k ∷ ks) checked enc h = ground (arith, check_keys_enc o urls false (k ∷ ks) enc)

  -- A request with a key set in which some key is for encryption is never accepted, also if all its
  -- keys say what they are for.
  pub validate_registration_enc :
      (crr c : ClientRegistrationRequest) (ks : List Jwk)
      → crr.jwks ≡ some ks
      → any (λ k. k.use_of == "enc") ks ≡ true
      → validate_registration o urls lib crr ≢ ok c
  validate_registration_enc crr c ks set enc h =
      let (checked, nonempty, granted, redirects, keyed, same) =
        validate_registration-eq-ok crr c h in
      check_jwks_enc ks checked enc (subst (λ j. check_jwks o j ≡ ok checked) set keyed)
