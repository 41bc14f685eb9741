-- ===== src/Provider/Grants/Exchange.antt =====
-- What the exchange of an authorization code checks.
use lico.Base.{◌≡◌, Option, none, some, ◌==◌, refl, arith, eq_iff, ◌⊎◌}
use lico.Errors.{oauth2_error, ok, guard, >>-eq-ok, guard-eq-ok}
use lico.Oidc.{Oidc}
use lico.Payload.Authentication.{AuthenticationRequest}
use lico.Payload.Token.{TokenRequest}
use lico.Provider.Grants.{CodeRecord, Grant, ChallengeCheck, check_verifier, exchange_code}

-- The verifier fits the challenge, or neither is there.
abbrev pub IsVerified : ChallengeCheck → AuthenticationRequest → TokenRequest → Type 0
IsVerified challenge_error ar tr =
    ((tr.code_verifier ≡ "") × (ar.code_challenge ≡ ""))
    ⊎ (challenge_error ar.code_challenge ar.code_challenge_method tr.code_verifier ≡ none)

-- The grant of a code's record.
abbrev pub grant_of : CodeRecord → Grant
grant_of r = record {
  request = r.request;
  auth = r.auth;
  session = r.session;
  authorized_scopes = r.auth.authorized_scopes;
}

-- What a code must have been issued for.
abbrev pub IsIssuedTo : ChallengeCheck → CodeRecord → TokenRequest → Type 0
IsIssuedTo challenge_error r tr =
    (r.request.client_id ≡ tr.client_id)
    × (r.request.raw_redirect_uri ≡ tr.raw_redirect_uri)
    × IsVerified challenge_error r.request tr

module _ (o : Oidc) (challenge_error : ChallengeCheck) where
  check_verifier_sound :
      (ar : AuthenticationRequest) (tr : TokenRequest)
      → check_verifier o challenge_error ar tr ≡ ok tt
      → IsVerified challenge_error ar tr
  unfolding check_verifier
  check_verifier_sound ar tr h =
      ground (arith, eq_iff tr.code_verifier "", eq_iff ar.code_challenge "")

  -- The exchange of a code grants what its record says if the code was found.
  pub exchange_code_sound :
      (tr : TokenRequest) (found : Option CodeRecord) (g : Grant)
      → exchange_code o challenge_error tr found ≡ ok g
      → (r : CodeRecord) × (found ≡ some r) × IsIssuedTo challenge_error r tr × (g ≡ grant_of r)
  unfolding exchange_code
  exchange_code_sound tr none g h = cc
  exchange_code_sound tr (some r) g h =
      let (same_client, h1) =
        >>-eq-ok
          (guard (r.request.client_id == tr.client_id)
            (oauth2_error o.invalid_grant "client_id mismatch"))
          _ h in
      let (same_uri, h2) =
        >>-eq-ok
          (guard (r.request.raw_redirect_uri == tr.raw_redirect_uri)
            (oauth2_error o.invalid_grant "redirect_uri mismatch"))
          _ h1 in
      let (verified, h3) = >>-eq-ok (check_verifier o challenge_error r.request tr) _ h2 in
      (
        r,
        refl,
        (
          (eq_iff _ _).0 (guard-eq-ok _ _ same_client),
          (eq_iff _ _).0 (guard-eq-ok _ _ same_uri),
          check_verifier_sound r.request tr verified,
        ),
        cc,
      )
