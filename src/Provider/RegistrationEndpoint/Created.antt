-- ===== src/Provider/RegistrationEndpoint/Created.antt =====
-- What SetDynamic makes of an accepted request (identity/clients/models.go), as the registration endpoint
-- hands it out.
use lico.Base.{
  ℕ, String, ◌≡◌, ◌≢◌, refl, true, false, [], ◌+◌, ltb, if◌then◌else◌, none, some, ◌⊎◌, inl, inr,
  Option-cases,
}
use Prim.Native.String
use lico.Errors.{GoError, Result, ok, err, panic}
use lico.Clients.{
  ClientLib, ClientRegistration, RegistrationClaims, DynamicContext, set_dynamic, finish_dynamic,
  start_dynamic, dynamic_claims, static_salt, make_secret,
}
use lico.Payload.Registration.{ClientRegistrationRequest, client_registration}
use lico.Provider.RegistrationEndpoint.{ClientRegistrationResponse, response_of}

-- The registration that an accepted request makes at a time, before it has an id: a dynamic client that is
-- neither trusted nor insecure, with the metadata of the request.
abbrev pub started_of : ℕ → ℕ → ClientRegistrationRequest → ClientRegistration
started_of now duration c = record {
  id = "";
  secret = "";
  trusted = false;
  trusted_scopes = [];
  insecure = false;
  implicit_scopes = [];
  dynamic = true;
  id_issued_at = now;
  secret_expires_at = if ltb 0 duration then now + duration else 0;
  contacts = c.contacts;
  name = c.client_name;
  uri = c.client_uri;
  grant_types = c.grant_types;
  application_type = c.application_type;
  redirect_uris = c.redirect_uris;
  origins = [];
  jwks = c.jwks;
  raw_id_token_signed_response_alg = c.raw_id_token_signed_response_alg;
  raw_user_info_signed_response_alg = c.raw_user_info_signed_response_alg;
  raw_request_object_signing_alg = c.raw_request_object_signing_alg;
  raw_token_endpoint_auth_method = c.raw_token_endpoint_auth_method;
  raw_token_endpoint_auth_signing_alg = c.raw_token_endpoint_auth_signing_alg;
  post_logout_redirect_uris = c.post_logout_redirect_uris;
}

-- The claims that are signed as the client id: the hash of the name with the secret as the subject.
abbrev pub claims_of :
    ClientLib → ℕ → ℕ → (String → String) → ClientRegistrationRequest → RegistrationClaims
claims_of lib now duration sum c = record {
  subject = lib.encode_base64 (sum (String.◌++◌ c.client_name (String.◌++◌ " " static_salt)));
  issued_at = now;
  expires_at = if ltb 0 duration then now + duration else 0;
  registration = some (started_of now duration c);
}

-- What the response has for a request: the id is the prefix and what the creator signed for the claims of
-- the request, beside the encoded secret; or the creator signs nothing for them, and both are empty.
abbrev pub IsIssued :
    ClientLib
    → DynamicContext
    → (RegistrationClaims → Result String)
    → ℕ
    → ClientRegistrationRequest
    → ClientRegistrationResponse
    → Type 0
IsIssued lib ctx creator duration c response =
    (response.client_id_issued_at ≡ ctx.now)
    × (response.client_secret_expires_at ≡ (if ltb 0 duration then ctx.now + duration else 0))
    × (sum : (String → String)) × (lib.blake2b_512 ctx.random_bytes ≡ some sum)
    × (((token : String) × (creator (claims_of lib ctx.now duration sum c) ≡ ok token)
          × (response.client_id ≡ String.◌++◌ "dyn." token)
          × (response.client_secret ≡ lib.encode_base64 ctx.random_bytes))
        ⊎ (((token : String) → creator (claims_of lib ctx.now duration sum c) ≢ ok token)
            × (response.client_id ≡ "")
            × (response.client_secret ≡ "")))

Result-cases {ℓ} :
    {A : Type ℓ} (r : Result A)
    → ((a : A) × (r ≡ ok a)) ⊎ (((e : GoError) × (r ≡ err e)) ⊎ (r ≡ panic))
Result-cases (ok a) = inl (a, refl)
Result-cases (err e) = inr (inl (e, refl))
Result-cases panic = inr (inr refl)

module _ (lib : ClientLib) (ctx : DynamicContext) where
  make_secret-made :
      (cr : ClientRegistration) (sub secret : String)
      → make_secret lib cr ctx.random_bytes ≡ ok (sub, secret)
      → (sum : (String → String)) × (lib.blake2b_512 ctx.random_bytes ≡ some sum)
        × (sub ≡ lib.encode_base64 (sum (String.◌++◌ cr.name (String.◌++◌ " " static_salt))))
        × (secret ≡ lib.encode_base64 ctx.random_bytes)
  unfolding make_secret
  make_secret-made cr sub secret h = elim (Option-cases (lib.blake2b_512 ctx.random_bytes)) [
    | inl nothing ↦ absurd (cc (rw (make_secret, nothing) at h))
    | inr (sum, present) ↦ let h1 = rw (make_secret, present) at h in (sum, present, cc h1, cc h1)
  ]

  finish_dynamic-IsIssued :
      (creator : (RegistrationClaims → Result String)) (duration : ℕ)
      (crr : ClientRegistrationRequest) (response : ClientRegistrationResponse)
      → (finish_dynamic lib creator ctx.random_bytes (started_of ctx.now duration crr)).1 ≡ none
      → response
        ≡ response_of crr
            (finish_dynamic lib creator ctx.random_bytes (started_of ctx.now duration crr)).0
      → IsIssued lib ctx creator duration crr response
  unfolding finish_dynamic
  finish_dynamic-IsIssued creator duration crr response fine same =
      let started : ClientRegistration = started_of ctx.now duration crr in
      elim (Result-cases (make_secret lib started ctx.random_bytes)) [
        | inr (inl (e, fails)) ↦ absurd (cc (rw (fails, finish_dynamic) at fine))
        | inr (inr fails) ↦ absurd (cc (rw (fails, finish_dynamic) at fine))
        | inl ((sub, secret), makes) ↦
            let same1 = rw (makes, finish_dynamic) at same in
            let (sum, hashes, is_sub, is_secret) = make_secret-made started sub secret makes in
            let is_claims : dynamic_claims sub started ≡ claims_of lib ctx.now duration sum crr =
              rw is_sub refl in
            elim (Result-cases (creator (dynamic_claims sub started))) [
              | inr (inl (e, fails)) ↦
                  let same2 = rw fails at same1 in
                  (
                    cc same2,
                    cc same2,
                    sum,
                    hashes,
                    inr (λ token signs. cc (rw is_claims at fails, signs), cc same2, cc same2),
                  )
              | inr (inr fails) ↦
                  let same2 = rw fails at same1 in
                  (
                    cc same2,
                    cc same2,
                    sum,
                    hashes,
                    inr (λ token signs. cc (rw is_claims at fails, signs), cc same2, cc same2),
                  )
              | inl (token, signs) ↦
                  let same2 = rw signs at same1 in
                  (
                    cc same2,
                    cc same2,
                    sum,
                    hashes,
                    inl (token, rw is_claims at signs, cc same2, cc (same2, is_secret)),
                  )
            ]
      ]

  -- The registry's duration and the creator of the id, and what is issued with them.
  abbrev pub IsCreated : ClientRegistrationRequest → ClientRegistrationResponse → Type 0
  IsCreated c response =
      (creator : (RegistrationClaims → Result String)) × (duration : ℕ) × (ctx.creator
        ≡ some creator)
      × (ctx.registry ≡ some duration)
      × IsIssued lib ctx creator duration c response

  pub set_dynamic-IsCreated :
      (c : ClientRegistrationRequest) (response : ClientRegistrationResponse)
      → (set_dynamic lib ctx (client_registration c)).1 ≡ none
      → response ≡ response_of c (set_dynamic lib ctx (client_registration c)).0
      → IsCreated c response
  unfolding set_dynamic start_dynamic client_registration
  set_dynamic-IsCreated c response fine same = elim (Option-cases ctx.creator) [
    | inl nobody ↦ absurd (cc (rw nobody at fine))
    | inr (creator, creates) ↦ elim (Option-cases ctx.registry) [
      | inl nowhere ↦ absurd (cc (rw (creates, nowhere) at fine))
      | inr (duration, registers) ↦ (
        creator,
        duration,
        creates,
        registers,
        finish_dynamic-IsIssued creator duration c response (rw (creates, registers) at fine)
            (rw (creates, registers) at same),
      )
    ]
  ]
