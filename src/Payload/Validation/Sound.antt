-- ===== src/Payload/Validation/Sound.antt =====
-- What a validated authentication request satisfies.
use lico.Base.{
  ℕ, String, Bool, true, false, Option, none, some, ◌==◌, ◌||◌, not, ◌≤◌, sym, ◌∙◌, ap, ◌≡◌, ◌≢◌,
  refl, ◌⊎◌, inl, inr, arith, eq_iff, eq_refl, Bool-cases, leb,
}
use mathlib.Core.Bool.{false≢true}
use mathlib.Core.Path.{subst}
use lico.Base.Lists.{length}
use lico.Base.Dict.{get, has, flag, get-remove}
use lico.Errors.{error_text, Result, ok, err, panic, guard, >>=-eq-ok, >>-eq-ok, guard-eq-ok}
use lico.Url.{Url}
use lico.Jwt.{Token, Key, IdTokenClaims}
use lico.Oidc.{Oidc}
use lico.Payload.Authentication.{AuthenticationRequest, RequestLib, new_bad_request}
use lico.Payload.Validation.{
  is_implicit_type, is_other_type, check_response_type, check_code_challenge, check_prompts,
  has_target, check_client, check_parameters, hint_key, read_hint, limit_offline, check_unsupported,
  validate_request,
}

ok-injective : (a b : AuthenticationRequest) → ok a ≡ ok b → a ≡ b
ok-injective a b h = ground arith

module _ (o : Oidc) where
  -- The tests that an authentication request passes, as the OpenID Connect specification words them.
  pub record IsWellFormed (ar : AuthenticationRequest) : Type 0 where
    pub openid : has o.scope_openid ar.scopes ≡ true
    pub response_type :
        (is_implicit_type o ar.raw_response_type ≡ true) × (ar.nonce ≢ "")
        ⊎ (is_implicit_type o ar.raw_response_type ≡ false)
          × (is_other_type o ar.raw_response_type ≡ true)
    pub code_challenge :
        (ar.flow ≢ o.flow_code) × (ar.flow ≢ o.flow_hybrid)
        ⊎ (ar.code_challenge_method ≡ "")
        ⊎ (ar.code_challenge_method ≡ o.s256_code_challenge_method)
    pub prompt : (has o.prompt_none ar.prompts ≡ false) ⊎ (length ar.prompts ≤ 1)
    pub client : ar.client_id ≢ ""
    pub target : (uri : Url) × (ar.redirect_uri ≡ some uri) × (uri.host ≢ "") × (uri.scheme ≢ "")

  response_type_sound :
      (ar : AuthenticationRequest)
      → check_response_type o ar ≡ ok tt
      → (is_implicit_type o ar.raw_response_type ≡ true) × (ar.nonce ≢ "")
        ⊎ (is_implicit_type o ar.raw_response_type ≡ false)
          × (is_other_type o ar.raw_response_type ≡ true)
  unfolding check_response_type
  response_type_sound ar h = elim (Bool-cases (is_implicit_type o ar.raw_response_type)) [
    | inl implicit ↦ inl (
      implicit,
      λ e.
          false≢true (sym (ap not ((eq_iff ar.nonce "").1 e)) ∙ guard-eq-ok _ _ (rw implicit at h)),
    )
    | inr other ↦ inr (other, guard-eq-ok _ _ (rw other at h))
  ]

  challenge_cases :
      (a b c d : Bool)
      → (not (a || b) || c || d) ≡ true
      → ((a ≡ false) × (b ≡ false)) ⊎ (c ≡ true) ⊎ (d ≡ true)
  challenge_cases a b c d h = ground arith

  ne_of_eq_false : (s t : String) → (s == t) ≡ false → s ≢ t
  ne_of_eq_false s t h = ground (arith, eq_iff s t)

  code_challenge_sound :
      (ar : AuthenticationRequest)
      → check_code_challenge o ar ≡ ok tt
      → (ar.flow ≢ o.flow_code) × (ar.flow ≢ o.flow_hybrid)
        ⊎ (ar.code_challenge_method ≡ "")
        ⊎ (ar.code_challenge_method ≡ o.s256_code_challenge_method)
  unfolding check_code_challenge
  code_challenge_sound ar h =
      elim (challenge_cases (ar.flow == o.flow_code) (ar.flow == o.flow_hybrid)
        (ar.code_challenge_method == "") (ar.code_challenge_method == o.s256_code_challenge_method)
        (guard-eq-ok _ _ h)) [
          | inl (a, b) ↦ inl (ne_of_eq_false _ _ a, ne_of_eq_false _ _ b)
          | inr (inl c) ↦ inr (inl ((eq_iff _ _).0 c))
          | inr (inr d) ↦ inr (inr ((eq_iff _ _).0 d))
        ]

  prompts_cases : (a : Bool) (n : ℕ) → (not a || leb n 1) ≡ true → (a ≡ false) ⊎ (n ≤ 1)
  prompts_cases a n h = ground arith

  not-eq-true : (s : String) → not (s == "") ≡ true → s ≢ ""
  not-eq-true s h = ground (arith, eq_iff s "")

  target_sound :
      (redirect_uri : Option Url)
      → has_target o redirect_uri ≡ true
      → (uri : Url) × (redirect_uri ≡ some uri) × (uri.host ≢ "") × (uri.scheme ≢ "")
  target_sound none h = cc
  target_sound (some uri) h =
      (uri, refl, ground (arith, eq_iff uri.host ""), ground (arith, eq_iff uri.scheme ""))

  check_parameters_sound :
      (ar : AuthenticationRequest) → check_parameters o ar ≡ ok tt → IsWellFormed ar
  unfolding check_parameters check_prompts check_client
  check_parameters_sound ar h =
      let (openid, h1) = >>-eq-ok (guard _ _) _ h in
      let (response_type, h2) = >>-eq-ok (check_response_type o ar) _ h1 in
      let (challenge, h3) = >>-eq-ok (check_code_challenge o ar) _ h2 in
      let (prompts, h4) = >>-eq-ok (guard _ _) _ h3 in
      let (client, target) = >>-eq-ok (guard _ _) (guard _ _) h4 in
      record {
        openid = guard-eq-ok _ _ openid;
        response_type = response_type_sound ar response_type;
        code_challenge = code_challenge_sound ar challenge;
        prompt = prompts_cases _ _ (guard-eq-ok _ _ prompts);
        client = not-eq-true ar.client_id (guard-eq-ok _ _ client);
        target = target_sound ar.redirect_uri (guard-eq-ok _ _ target);
      }

  module _ {V : Type 0} (lib : RequestLib V) where
    limit_offline-flag :
        (ar : AuthenticationRequest)
        → (flag o.scope_offline_access (limit_offline o lib ar).scopes ≡ false)
          ⊎ (has o.response_type_code (limit_offline o lib ar).response_types ≡ true)
    unfolding limit_offline
    limit_offline-flag ar = ground (
      arith,
      get-remove o.scope_offline_access o.scope_offline_access ar.scopes,
      eq_refl o.scope_offline_access,
    )

    limit_offline-get :
        (ar : AuthenticationRequest) (scope : String)
        → scope ≢ o.scope_offline_access
        → get scope (limit_offline o lib ar).scopes ≡ get scope ar.scopes
    unfolding limit_offline
    limit_offline-get ar scope ne = ground (
      arith,
      get-remove o.scope_offline_access scope ar.scopes,
      eq_iff o.scope_offline_access scope,
    )

    -- The hint of a validated request was left out, or the parser accepted it under the key function.
    abbrev pub HintChecked :
        Option (Token IdTokenClaims → Result Key)
        → AuthenticationRequest
        → AuthenticationRequest
        → Type 0
    HintChecked key_func ar hinted =
        ((ar.raw_id_token_hint ≡ "") × (hinted ≡ ar))
        ⊎ ((token : Token IdTokenClaims) × (lib.parse_hint ar.raw_id_token_hint
                (hint_key o key_func)
              ≡ ok token)
            × (hinted ≡ record ar { id_token_hint = some token }))

    parsed_hint :
        (result : Result (Token IdTokenClaims)) (ar hinted : AuthenticationRequest)
        → (elim result [
          | ok token ↦ ok (record ar { id_token_hint = some token })
          | err e ↦ err (new_bad_request ar o.invalid_request (error_text e))
          | panic ↦ panic
        ])
          ≡ ok hinted
        → (token : Token IdTokenClaims) × (result ≡ ok token)
          × (hinted ≡ record ar { id_token_hint = some token })
    parsed_hint (ok token) ar hinted h =
        (token, refl, sym (ok-injective (record ar { id_token_hint = some token }) hinted h))
    parsed_hint (err e) ar hinted h = cc
    parsed_hint panic ar hinted h = cc

    read_hint_sound :
        (key_func : Option (Token IdTokenClaims → Result Key)) (ar hinted : AuthenticationRequest)
        → read_hint o lib key_func ar ≡ ok hinted
        → HintChecked key_func ar hinted
    unfolding read_hint
    read_hint_sound key_func ar hinted h = elim (Bool-cases (ar.raw_id_token_hint == "")) [
      | inl left_out ↦
          inl ((eq_iff _ _).0 left_out, sym (ok-injective ar hinted (rw left_out at h)))
      | inr given ↦ inr (
          parsed_hint (lib.parse_hint ar.raw_id_token_hint (hint_key o key_func)) ar hinted
            (rw given at h))
    ]

    -- What holds of a request that Validate accepts, of the request as it was before, `ar`, and as Validate
    -- leaves it, `ar'`.
    pub record IsValidated (key_func : Option (Token IdTokenClaims → Result Key))
        (ar ar' : AuthenticationRequest) : Type 0 where
      pub well_formed : IsWellFormed ar
      pub hint :
          (hinted : AuthenticationRequest) × HintChecked key_func ar hinted
          × (ar' ≡ limit_offline o lib hinted)
          × (hinted.raw_request_uri ≡ "")
          × (hinted.raw_registration ≡ "")
      pub offline :
          (flag o.scope_offline_access ar'.scopes ≡ false)
          ⊎ (has o.response_type_code ar'.response_types ≡ true)

    -- A request that Validate accepts asks for openid and a supported response type, with a nonce for the
    -- implicit flow; uses no code challenge method but S256 with a code; does not mix the prompt none with
    -- others; has a client id and a redirect URI with scheme and host; its ID token hint, if any, is
    -- accepted by the parser; it uses neither request_uri nor registration; and it keeps offline access
    -- only if it asks for a code.
    pub validate_request-IsValidated :
        (key_func : Option (Token IdTokenClaims → Result Key)) (ar ar' : AuthenticationRequest)
        → validate_request o lib key_func ar ≡ ok ar'
        → IsValidated key_func ar ar'
    unfolding validate_request check_unsupported
    validate_request-IsValidated key_func ar ar' h =
        let (parameters, h1) = >>-eq-ok (check_parameters o ar) _ h in
        let (hinted, read, h2) = >>=-eq-ok (read_hint o lib key_func ar) _ h1 in
        let (unsupported, h3) = >>-eq-ok (check_unsupported o lib hinted) _ h2 in
        let (request_uri, registration) = >>-eq-ok (guard _ _) (guard _ _) unsupported in
        let e = ok-injective (limit_offline o lib hinted) ar' h3 in
        record {
          well_formed = check_parameters_sound ar parameters;
          hint = (
            hinted,
            read_hint_sound key_func ar hinted read,
            sym e,
            (eq_iff _ _).0 (guard-eq-ok _ _ request_uri),
            (eq_iff _ _).0 (guard-eq-ok _ _ registration),
          );
          offline =
              subst
                (λ (r : AuthenticationRequest).
                  (flag o.scope_offline_access r.scopes ≡ false)
                  ⊎ (has o.response_type_code r.response_types ≡ true))
                e (limit_offline-flag hinted);
        }
