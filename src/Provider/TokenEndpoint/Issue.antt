-- ===== src/Provider/TokenEndpoint/Issue.antt =====
-- What a token response that carries an access token stands on.
use lico.Base.{◌≡◌, some, arith, eq_iff}
use lico.Oidc.{Oidc}
use lico.Jwt.{Token}
use lico.Code.{CodeManager, pop}
use lico.Payload.Token.{TokenRequest, RefreshTokenClaims}
use lico.Provider.Grants.{CodeRecord, Grant, outcome_of, exchange_code}
use lico.Provider.Grants.Refresh.{IsRefreshOf}
use lico.Provider.Grants.Exchange.{IsIssuedTo, grant_of}
use lico.Provider.TokenEndpoint.{Endpoint, take_grant}

module _ (o : Oidc) {V : Type 0} (e : Endpoint V) where
  pub take_grant_of_code :
      (cm : CodeManager CodeRecord) (tr : TokenRequest)
      → tr.grant_type ≡ o.grant_type_authorization_code
      → take_grant o e cm tr
        ≡ ((pop tr.code cm).1, outcome_of (exchange_code o e.challenge_error tr (pop tr.code cm).0))
  unfolding take_grant
  take_grant_of_code cm tr c = ground (arith, eq_iff tr.grant_type o.grant_type_authorization_code)

  -- What an access token was issued for: a code that was popped from the table and was issued to the
  -- client of the request, or a refresh token of that client.
  pub data IsGranted (cm : CodeManager CodeRecord) (tr : TokenRequest) (g : Grant) : Type 0 where
    by_code :
        (r : CodeRecord)
        → tr.grant_type ≡ o.grant_type_authorization_code
        → (pop tr.code cm).0 ≡ some r
        → IsIssuedTo e.challenge_error r tr
        → g ≡ grant_of r
        → IsGranted cm tr g
    by_refresh :
        (token : Token RefreshTokenClaims)
        → tr.grant_type ≡ o.grant_type_refresh_token
        → tr.refresh_token ≡ some token
        → IsRefreshOf o e.managers tr token g
        → IsGranted cm tr g
