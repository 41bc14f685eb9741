-- ===== src/Provider/Tokens/Maker.antt =====
-- The provider's own token making (oidc/provider/tokens.go) as the interface that the endpoints use.
use lico.Base.{String, ◌≡◌, Option, some}
use lico.Errors.{ok}
use lico.Jwt.{SigningMethod}
use lico.Oidc.{Oidc}
use lico.Identity.{AuthRecord}
use lico.Payload.Claims.{ClaimNames}
use lico.Provider.Keys.{SigningKey, get_signing_key}
use lico.Provider.Managers.{TokenMaker}
use lico.Provider.Tokens.{TokenProvider, TokenClaims, make_access_token}
use lico.Provider.Tokens.Final.{IsFinal}
use lico.Provider.Tokens.Own.{IsOwn}
use lico.TokenClaims.{AccessTokenClaims}
use lico.Provider.Tokens.Id.{make_id_token}
use lico.Provider.Tokens.Refresh.{make_refresh_token}

abbrev pub token_maker : Oidc → ClaimNames → TokenProvider → TokenMaker
token_maker o names p = record {
  make_access_token = make_access_token p;
  make_id_token = make_id_token o names p;
  make_refresh_token = make_refresh_token p;
}

-- The token is signed with the provider's key for the method, over the claims of an access token for the
-- audience and the record, or over the map that is made of them.
pub record IsAccessToken (p : TokenProvider) (audience : String) (auth : AuthRecord)
    (method : Option SigningMethod) (token : String) : Type 0 where
  pub sk : SigningKey
  pub own : AccessTokenClaims
  pub claims : TokenClaims
  pub key : get_signing_key p.keys method ≡ some sk
  pub is_own : IsOwn p audience auth own
  pub final : IsFinal p own claims
  pub signs : p.signed_string sk sk.id claims ≡ ok token
