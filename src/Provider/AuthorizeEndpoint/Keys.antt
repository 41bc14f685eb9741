-- ===== src/Provider/AuthorizeEndpoint/Keys.antt =====
-- Which key the authorize endpoint checks a request object with.
use lico.Base.{
  String, ◌≡◌, Bool, true, false, Option, none, some, ◌==◌, ◌&&◌, not, refl, arith, eq_iff, ◌⊎◌,
  inl, inr, if◌then◌else◌, Bool-cases, Option-cases, then_of, else_of,
}
use mathlib.Core.Path.{subst}
use lico.Errors.{GoError, Result, ok, err, panic, >>=-eq-ok}
use lico.Oidc.{Oidc}
use lico.Jwt.{Token, Key, public_key, allow_none, is_unsigned}
use lico.Clients.{ClientRegistration, ClientLib, Secured, secure}
use lico.Clients.Lookup.{get_client}
use lico.Payload.Authentication.{RequestObjectClaims, set_secure}
use lico.Provider.AuthorizeEndpoint.{
  Authorizer, known_client, kid_of, signed_object_key, secured_object_key, object_key_for,
  request_object_key,
}

set_secure-eq-ok :
    (client : Secured) (roc claims : RequestObjectClaims)
    → set_secure client roc ≡ ok claims
    → (roc.client_id ≡ client.id) × (claims ≡ record roc { client = some client })
unfolding set_secure
set_secure-eq-ok client roc claims h = elim (Bool-cases (roc.client_id == client.id)) [
  | inl same ↦ ((eq_iff _ _).0 same, ground arith)
  | inr other ↦ ground arith
]

known_client-some :
    (m : Result (Option ClientRegistration)) (r : ClientRegistration)
    → known_client m ≡ ok (some r)
    → m ≡ ok (some r)
known_client-some (ok a) r h = h
known_client-some (err e) r h = cc
known_client-some panic r h = cc

-- What two tests leave of a result.
two_tests {ℓ} :
    {A : Type ℓ} (b c : Bool) (e : GoError) (x y : Result A) {a : A}
    → (if b then err e else if c then x else y) ≡ ok a
    → (b ≡ false) × (((c ≡ true) × (x ≡ ok a)) ⊎ ((c ≡ false) × (y ≡ ok a)))
two_tests true c e x y h = cc
two_tests false true e x y h = (refl, inl (refl, h))
two_tests false false e x y h = (refl, inr (refl, h))

alg_of_tests :
    (named alg : String)
    → (not (named == "") && not (alg == named)) ≡ false
    → (named ≡ "") ⊎ (alg ≡ named)
alg_of_tests named alg h = ground (arith, eq_iff named "", eq_iff alg named)

-- The token is signed by a key of the registration, with the algorithm that this names, if it names one.
pub record IsSignedBy (clib : ClientLib) (registration : ClientRegistration)
    (token : Token RequestObjectClaims) (key : Key) (claims : RequestObjectClaims) : Type 0 where
  pub client : Secured
  pub signed : is_unsigned token.method ≡ false
  pub secured : secure clib registration (kid_of token.kid) ≡ ok client
  pub same_client : token.claims.client_id ≡ client.id
  pub same_key : key ≡ public_key client.key
  pub claimed : claims ≡ record token.claims { client = some client }
  pub alg :
      (registration.raw_request_object_signing_alg ≡ "")
      ⊎ (token.method.alg ≡ registration.raw_request_object_signing_alg)

module _ (clib : ClientLib) where
  signed_object_key-eq-ok :
      (registration : ClientRegistration) (token : Token RequestObjectClaims) (key : Key)
      (claims : RequestObjectClaims)
      → signed_object_key clib registration token ≡ ok (key, claims)
      → (client : Secured) × (secure clib registration (kid_of token.kid) ≡ ok client)
        × (set_secure client token.claims ≡ ok claims)
        × (key ≡ public_key client.key)
  unfolding signed_object_key secured_object_key
  signed_object_key-eq-ok registration token key claims h = elim (Option-cases registration.jwks) [
    | inl missing ↦ ground arith
    | inr (jwks, there) ↦
        let h0 : secured_object_key clib registration token ≡ ok (key, claims) = ground arith in
        let (client, secured, h1) = >>=-eq-ok (secure clib registration (kid_of token.kid)) _ h0 in
        let (c, set, h2) = >>=-eq-ok (set_secure client token.claims) _ h1 in
        (client, secured, cc (set, h2), cc h2)
  ]

  object_key_for-registered :
      (registration : ClientRegistration) (token : Token RequestObjectClaims) (key : Key)
      (claims : RequestObjectClaims)
      → object_key_for clib (some registration) token ≡ ok (key, claims)
      → ((key ≡ allow_none) × (is_unsigned token.method ≡ true) × (claims ≡ token.claims))
        ⊎ IsSignedBy clib registration token key claims
  unfolding object_key_for
  object_key_for-registered registration token key claims h =
      let (alg, rest) =
        two_tests
          (not (registration.raw_request_object_signing_alg == "")
            && not (token.method.alg == registration.raw_request_object_signing_alg))
          (is_unsigned token.method) _ _ _ h in
      elim rest [
        | inl (unsigned_token, e) ↦ inl (cc e, unsigned_token, cc e)
        | inr (signed, e) ↦
            let (client, secured, set, same) =
              signed_object_key-eq-ok registration token key claims e in
            let (same_id, claimed) = set_secure-eq-ok client token.claims claims set in
            inr (record {
              client = client;
              signed = signed;
              secured = secured;
              same_client = same_id;
              same_key = same;
              claimed = claimed;
              alg = alg_of_tests _ _ alg;
            })
      ]

  object_key_for-unknown :
      (token : Token RequestObjectClaims) (key : Key) (claims : RequestObjectClaims)
      → object_key_for clib none token ≡ ok (key, claims)
      → (key ≡ allow_none) × (is_unsigned token.method ≡ true) × (claims ≡ token.claims)
  unfolding object_key_for
  object_key_for-unknown token key claims h = elim (Bool-cases (is_unsigned token.method)) [
    | inl unsigned_token ↦ let e = then_of _ unsigned_token h in (cc e, unsigned_token, cc e)
    | inr signed ↦ cc (else_of _ signed h)
  ]

-- The authorize endpoint lets a request object pass without a signature only if its own method says
-- that it has none, and then leaves its claims as they are. It checks any other with a key of the
-- registered client that the object names, whose id the object's claims then keep, and with the
-- algorithm that the registration names.
pub request_object_key_sound :
    (o : Oidc) {V : Type 0} (e : Authorizer V)
    → (token : Token RequestObjectClaims) (key : Key) (claims : RequestObjectClaims)
    → request_object_key o e token ≡ ok (key, claims)
    → ((key ≡ allow_none) × (is_unsigned token.method ≡ true) × (claims ≡ token.claims))
      ⊎ ((registration : ClientRegistration) × (get_client e.parse_client_id e.registry
              token.claims.client_id
            ≡ ok (some registration))
          × IsSignedBy e.client_lib registration token key claims)
unfolding request_object_key
request_object_key_sound o e token key claims h =
    let (found, known, h1) =
      >>=-eq-ok (known_client (get_client e.parse_client_id e.registry token.claims.client_id)) _
        h in
    elim (Option-cases found) [
      | inl unknown ↦ inl (
          object_key_for-unknown e.client_lib token key claims
            (subst (λ f. object_key_for e.client_lib f token ≡ ok (key, claims)) unknown h1))
      | inr (registration, same) ↦
          elim (object_key_for-registered e.client_lib registration token key claims
            (subst (λ f. object_key_for e.client_lib f token ≡ ok (key, claims)) same h1)) [
              | inl free ↦ inl free
              | inr signed ↦
                  inr (registration, known_client-some _ registration (cc (known, same)), signed)
            ]
    ]
