-- ===== src/Payload/Authentication/Object.antt =====
-- What a request object changes, and which claims it lets through.
use lico.Base.{ℕ, String, false, Option, none, some, ◌≡◌, ◌≢◌, refl, arith, sym, ◌∙◌, eq_of_ne, ap}
use lico.Errors.{Result, ok, >>=-eq-ok}
use lico.Url.{UrlLib}
use lico.Jwt.{Token, Key, is_unsigned}
use lico.Oidc.{Oidc}
use lico.Payload.Claims.{ClaimsRequest}
use lico.Payload.Authentication.{
  AuthenticationParams, RequestObjectClaims, AuthenticationRequest, RequestLib,
  check_request_object, merge_request_object, apply_request_object, read_request_object, object_key,
  keep_passthru, complete_request, decoded_request, decode_params, max_age_of,
  new_authentication_request,
}

module _ (o : Oidc) {V : Type 0} (urls : UrlLib) (lib : RequestLib V) where
  keep_passthru_signed :
      (request : Option (Token RequestObjectClaims)) (old : Option ClaimsRequest)
      → (c : ClaimsRequest) (raw : String) → keep_passthru o urls lib request old ≡ some c
      → c.passthru ≡ some raw
      → (token : Token RequestObjectClaims) × (request ≡ some token)
        × (is_unsigned token.method ≡ false)
  unfolding keep_passthru
  keep_passthru_signed none none c raw h p = cc
  keep_passthru_signed none (some old) c raw h p = absurd (ground arith)
  keep_passthru_signed (some token) none c raw h p = cc
  keep_passthru_signed (some token) (some old) c raw h p = (token, refl, ground arith)

  kept_claims :
      (merged ar : AuthenticationRequest) (max_age : ℕ)
      → complete_request o urls lib merged max_age ≡ ar
      → keep_passthru o urls lib merged.request merged.claims ≡ ar.claims
  unfolding complete_request
  kept_claims merged ar max_age e = ap (λ (r : AuthenticationRequest). r.claims) e

  kept_request :
      (merged ar : AuthenticationRequest) (max_age : ℕ)
      → complete_request o urls lib merged max_age ≡ ar
      → merged.request ≡ ar.request
  unfolding complete_request
  kept_request merged ar max_age e = ap (λ (r : AuthenticationRequest). r.request) e

  complete_signed :
      (merged ar : AuthenticationRequest) (max_age : ℕ) (c : ClaimsRequest) (raw : String)
      → ok (complete_request o urls lib merged max_age) ≡ ok ar
      → ar.claims ≡ some c
      → c.passthru ≡ some raw
      → (token : Token RequestObjectClaims) × (ar.request ≡ some token)
        × (is_unsigned token.method ≡ false)
  complete_signed merged ar max_age c raw h claims p =
      let e : complete_request o urls lib merged max_age ≡ ar = ground arith in
      let kept : keep_passthru o urls lib merged.request merged.claims ≡ some c =
        kept_claims merged ar max_age e ∙ claims in
      let (token, signed, method) =
        keep_passthru_signed merged.request merged.claims c raw kept p in
      (token, sym (kept_request merged ar max_age e) ∙ signed, method)

  -- An accepted authentication request: the parts of NewAuthenticationRequest have all succeeded.
  new_request_parts :
      (values : V)
      (key_func : Option (Token RequestObjectClaims → Result (Key × RequestObjectClaims)))
      → (ar : AuthenticationRequest) → new_authentication_request o urls lib values key_func ≡ ok ar
      → (params : AuthenticationParams) × (merged : AuthenticationRequest) × (max_age : ℕ)
        × (decode_params lib values ≡ ok params)
        × (read_request_object o urls lib key_func (decoded_request o urls lib params) ≡ ok merged)
        × (ok (complete_request o urls lib merged max_age) ≡ ok ar)
  unfolding new_authentication_request
  new_request_parts values key_func ar h =
      let (params, d, h1) = >>=-eq-ok (decode_params lib values) _ h in
      let (merged, m, h2) =
        >>=-eq-ok (read_request_object o urls lib key_func (decoded_request o urls lib params)) _
          h1 in
      let (max_age, a, h3) = >>=-eq-ok (max_age_of o urls lib merged.raw_max_age) _ h2 in
      (params, merged, max_age, d, m, h3)

  -- Pass through claims of an accepted authentication request come with a request object that is
  -- signed: without one, or with one whose method is none, they are gone.
  pub passthru_signed :
      (values : V)
      (key_func : Option (Token RequestObjectClaims → Result (Key × RequestObjectClaims)))
      → (ar : AuthenticationRequest) (c : ClaimsRequest) (raw : String)
      → new_authentication_request o urls lib values key_func ≡ ok ar
      → ar.claims ≡ some c
      → c.passthru ≡ some raw
      → (token : Token RequestObjectClaims) × (ar.request ≡ some token)
        × (is_unsigned token.method ≡ false)
  passthru_signed values key_func ar c raw h claims p =
      let (params, merged, max_age, d, m, e) = new_request_parts values key_func ar h in
      complete_signed merged ar max_age c raw e claims p

  read_merged :
      (params : AuthenticationParams) (token : Token RequestObjectClaims)
      → (key_func : Option (Token RequestObjectClaims → Result (Key × RequestObjectClaims)))
      → params.raw_request ≢ ""
      → lib.parse_object params.raw_request (object_key o urls lib key_func) ≡ ok token
      → check_request_object o token.claims (decoded_request o urls lib params) ≡ ok tt
      → read_request_object o urls lib key_func (decoded_request o urls lib params)
        ≡ ok (record (merge_request_object o token.claims (decoded_request o urls lib params)) {
          request = some token;
        })
  unfolding read_request_object apply_request_object
  read_merged params token key_func given parsed checked =
      rw (eq_of_ne params.raw_request "" given, parsed, checked)

  keep_merged :
      (params : AuthenticationParams) (token : Token RequestObjectClaims) (c : ClaimsRequest)
      → params.claims ≡ some c
      → is_unsigned token.method ≡ false
      → token.claims.claims ≡ none
      → keep_passthru o urls lib
          (some token)
          (merge_request_object o token.claims (decoded_request o urls lib params)).claims
        ≡ some c
  unfolding keep_passthru merge_request_object
  keep_merged params token c plain signed no_claims = rw (no_claims, plain, signed)

  -- The claims of the request parameter and its signature are looked at apart: a signed request object
  -- that holds no claims of its own lets the pass through claims of the plain request parameter through,
  -- which nobody signed.
  pub passthru_unsigned :
      (params : AuthenticationParams) (token : Token RequestObjectClaims) (c : ClaimsRequest)
      → (max_age : ℕ)
      → (key_func : Option (Token RequestObjectClaims → Result (Key × RequestObjectClaims)))
      → params.raw_request ≢ ""
      → params.claims ≡ some c
      → lib.parse_object params.raw_request (object_key o urls lib key_func) ≡ ok token
      → is_unsigned token.method ≡ false
      → token.claims.claims ≡ none
      → check_request_object o token.claims (decoded_request o urls lib params) ≡ ok tt
      → (merged : AuthenticationRequest) × (read_request_object o urls lib key_func
            (decoded_request o urls lib params)
          ≡ ok merged)
        × ((complete_request o urls lib merged max_age).claims ≡ some c)
  unfolding complete_request
  passthru_unsigned params token c max_age key_func given plain parsed signed no_claims checked = (
    record (merge_request_object o token.claims (decoded_request o urls lib params)) {
      request = some token;
    },
    read_merged params token key_func given parsed checked,
    keep_merged params token c plain signed no_claims,
  )
