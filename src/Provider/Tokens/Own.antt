-- ===== src/Provider/Tokens/Own.antt =====
-- What an access token says of a record (makeAccessToken of oidc/provider/tokens.go).
use lico.Base.{
  ◌+◌, String, ◌≡◌, refl, Bool, true, false, none, some, List, [], ◌∷◌, Option-cases, inl, inr,
}
use lico.Base.Dict.{Dict}
use lico.Identity.{AuthRecord, make_array_from_bool_map}
use lico.TokenClaims.{AccessTokenClaims}
use lico.Provider.Tokens.{TokenProvider, access_token_claims}

-- The scopes of a map whose flag is set.
abbrev pub granted_names : Dict Bool → List String
granted_names [] = []
granted_names ((scope, true) ∷ m) = scope ∷ granted_names m
granted_names ((scope, false) ∷ m) = granted_names m

pub make_array_from_bool_map-granted_names :
    (m : Dict Bool) → make_array_from_bool_map m ≡ granted_names m
unfolding make_array_from_bool_map
make_array_from_bool_map-granted_names [] = refl
make_array_from_bool_map-granted_names ((scope, true) ∷ m) =
    rw (make_array_from_bool_map-granted_names m) refl
make_array_from_bool_map-granted_names ((scope, false) ∷ m) =
    make_array_from_bool_map-granted_names m

-- The claims are those of an access token of the provider, made now, about the subject of the record, for
-- the audience, with the granted scopes and the claims request of the record, and with the identity claims
-- of its user and the name of its manager, if it has a user.
pub record IsOwn (p : TokenProvider) (audience : String) (auth : AuthRecord) (c : AccessTokenClaims)
    : Type 0 where
  pub token_type : c.token_type ≡ "1"
  pub issuer : c.standard.issuer ≡ p.issuer_identifier
  pub subject : c.standard.subject ≡ auth.sub
  pub client : c.standard.audience ≡ audience
  pub issued : c.standard.issued_at ≡ p.now
  pub expires : c.standard.expires_at ≡ p.now + p.access_token_duration
  pub scopes : c.authorized_scopes_list ≡ granted_names auth.authorized_scopes
  pub request : c.authorized_claims_request ≡ auth.authorized_claims
  pub identity : c.identity_claims ≡ elim auth.user [ none ↦ none | some u ↦ u.claims ]
  pub provider :
      c.identity_provider ≡ elim auth.user [ none ↦ "" | some u ↦ p.managers.name auth.manager ]
  pub session : c.session ≡ none

pub access_token_claims-IsOwn :
    (p : TokenProvider) (audience : String) (auth : AuthRecord)
    → IsOwn p audience auth (access_token_claims p audience auth)
unfolding access_token_claims
access_token_claims-IsOwn p audience auth = record {
  token_type = refl;
  issuer = refl;
  subject = refl;
  client = refl;
  issued = refl;
  expires = refl;
  scopes = make_array_from_bool_map-granted_names auth.authorized_scopes;
  request = refl;
  identity = elim (Option-cases auth.user) [
    | inl nobody ↦ rw nobody refl
    | inr (u, present) ↦ rw present refl
  ];
  provider = refl;
  session = refl;
}
