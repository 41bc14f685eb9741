-- ===== src/Identity/Guest/Signed.antt =====
-- Who is taken as a guest by Authenticate of identity/managers/guest.go.
use lico.Base.{String, ◌≡◌, ◌≢◌, none, some, ◌⊎◌}
use lico.Jwt.{Token, IdTokenClaims}
use lico.Oidc.{Oidc}
use lico.Payload.Claims.{ClaimsRequest, ClaimsRequestMap}
use lico.Payload.Authentication.{AuthenticationRequest, RequestObjectClaims}
use lico.Identity.Guest.{GuestManager}

module _ (o : Oidc) (im : GuestManager) where
  -- The request has a signed object with claims, and a claims request for the ID token.
  pub record IsGuestRequest (ar : AuthenticationRequest) (request : Token RequestObjectClaims)
      (m : ClaimsRequestMap) : Type 0 where
    pub object : ar.request ≡ some request
    pub object_claims : request.claims.claims ≢ none
    pub claims : ClaimsRequest
    pub asked : ar.claims ≡ some claims
    pub for_id_token : claims.id_token ≡ some m

  -- The hint of the request, if there is one, is about the subject.
  abbrev pub IsHintFor : AuthenticationRequest → String → Type 0
  IsHintFor ar subject =
      (ar.id_token_hint ≡ none)
      ⊎ ((token : Token IdTokenClaims) × (ar.id_token_hint ≡ some token)
          × (subject ≡ token.claims.subject))
