-- ===== src/Provider/Tokens/Refresh.antt =====
-- makeRefreshToken of oidc/provider/tokens.go.
use lico.Base.{String, Option}
use lico.Base.Dict.{set_of}
use lico.Errors.{Result, ◌>>=◌}
use lico.Jwt.{SigningMethod}
use lico.Identity.{AuthRecord, make_array_from_bool_map}
use lico.TokenClaims.{RefreshTokenClaims, token_type_refresh_token}
use lico.Provider.Tokens.{
  TokenProvider, refresh_claims, require_signing_key, standard_claims, provider_of,
  identity_claims_of,
}

module _ (p : TokenProvider) where
  -- The claims of a refresh token, with the reference that the manager gave for the approved scopes.
  unfoldable pub refresh_token_claims : String → AuthRecord → String → RefreshTokenClaims
  unfolding make_array_from_bool_map
  refresh_token_claims audience auth ref = record {
    standard = standard_claims p auth.sub audience p.refresh_token_duration p.random_id;
    token_type = token_type_refresh_token;
    approved_scopes_list = make_array_from_bool_map auth.authorized_scopes;
    approved_claims_request = auth.authorized_claims;
    ref = ref;
    identity_claims = identity_claims_of auth.user;
    identity_provider = provider_of p auth;
  }

  -- makeRefreshToken: its loop lists and marks the scopes that are granted.
  unfoldable pub make_refresh_token : String → AuthRecord → Option SigningMethod → Result String
  unfolding require_signing_key refresh_token_claims
  make_refresh_token audience auth method = do
    sk ← require_signing_key p method
    ref ←
        p.managers.approve_scopes auth.manager auth.sub audience
          (set_of (make_array_from_bool_map auth.authorized_scopes))
    p.signed_string sk sk.id (refresh_claims (refresh_token_claims audience auth ref))
