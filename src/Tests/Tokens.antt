-- ===== src/Tests/Tokens.antt =====
-- Runs of the token making, and of the endpoints on what it makes.
use lico.Base.{◌≡◌, refl, true, none, some, [], ◌∷◌, ne_of_eq}
use lico.Base.Dict.{Dict, get, put, remove, mark}
use lico.Errors.{ok}
use lico.Oidc.{standard}
use lico.Jwt.{Token}
use lico.Identity.{AuthRecord, make_array_from_bool_map, get_session_ref}
use lico.Payload.Claims.{Value, end, field, object, map_of, object_of}
use lico.Payload.Token.{TokenRequest}
use lico.Provider.Grants.{granted, refresh, fake_request}
use lico.Provider.Keys.{SigningKey, get_signing_key}
use lico.Provider.Managers.{user_from_claims}
use lico.Provider.TokenEndpoint.{Endpoint, TokenSuccess}
use lico.Payload.Token.{TokenParams}
use lico.TokenClaims.{AccessTokenClaims, RefreshTokenClaims}
use lico.Provider.Tokens.Own.{IsOwn, granted_names}
use lico.Provider.Tokens.Extra.{extra_map}
use lico.Provider.Tokens.{
  TokenProvider, IdTokenFields, mapped_claims, make_access_token, require_signing_key, final_claims,
  strip_internal, inject_extra, extend_scopes, public_subject_from_auth,
}
use lico.Provider.Tokens.Access.{HasNoInternal, extended_claim, make_access_token-extended}
use lico.Provider.Tokens.Id.{
  make_id_token, id_token_claims, with_extra_claims, fetched_or, auth_time_of,
}
use lico.Provider.Tokens.Override.{IsAboutRequest, overridden_claim, make_id_token-overridden}
use lico.Provider.Tokens.Refresh.{refresh_token_claims}
use lico.Provider.Tokens.Usable.{grant_for, refresh-refresh_token_claims}
use lico.Provider.Tokens.Maker.{token_maker}
use lico.Identity.Claims.{put_all}
use lico.Code.{CodeManager, empty_manager, create}
use lico.Provider.Grants.{CodeRecord}
use lico.Tests.{rs256}
use lico.Tests.Claims.{someone_user, names}
use lico.Tests.Provider.{user, managers, keys, endpoint, stored_code, code_request, parsed_token}

abbrev pub signing_key : SigningKey
signing_key = record { id = "k"; private_key = "pk"; signing_method = rs256 }

-- The identity claims of a user, with an extra claim that is new and one that is not.
abbrev pub identity : Dict Value
identity =
    ("id", Value.text "u1")
    ∷ (
      "$lico.at.extra",
      object (field "sub" (Value.text "other") (field "dept" (Value.text "sales") end)),
    )
    ∷ []

abbrev pub member : AuthRecord
member = record user { user = some (record someone_user { claims = some identity }) }

abbrev pub provider : TokenProvider
provider = record {
  keys = record keys { signing_keys = ("RS256", signing_key) ∷ [] };
  managers = managers;
  issuer_identifier = "https://op.example.org";
  access_token_duration = 600;
  id_token_duration = 3600;
  refresh_token_duration = 86400;
  now = 1000;
  random_id = "random";
  access_to_map = λ c. ok (
      ("sub", Value.text c.subject)
      ∷ ("lg.i", object (field "id" (Value.text "u1") (field "$lico.at.extra" Value.null end)))
      ∷ []);
  id_to_map = λ c. ok (("sub", Value.text c.subject) ∷ []);
  signed_string = λ sk kid claims. ok "signed";
  leftmost_hash = λ method s. ok "hash";
}

make_access_token-extended_example :
    (sk : SigningKey) × (own : AccessTokenClaims) × (m : Dict Value) × (final : Dict Value)
    × (get_signing_key provider.keys (some rs256) ≡ some sk)
    × IsOwn provider "app" member own
    × (provider.access_to_map own ≡ ok m)
    × (provider.signed_string sk sk.id (mapped_claims final) ≡ ok "signed")
    × HasNoInternal final
    × (get "dept" final
        ≡ extended_claim
            (granted_names member.authorized_scopes)
            (extra_map (get "$lico.at.extra" identity))
            m
            "dept")
unfolding make_access_token require_signing_key get_signing_key get final_claims strip_internal
    map_of object_of inject_extra extend_scopes put remove
make_access_token-extended_example =
    make_access_token-extended provider "app" member (some rs256) "signed"
      (record someone_user { claims = some identity }) identity "dept" refl refl (refl, (refl, tt))
      (ne_of_eq _ _ refl) refl

make_id_token-overridden_example :
    (sk : SigningKey) × (c : IdTokenFields) × (m : Dict Value) × (final : Dict Value)
    × (get_signing_key provider.keys (some rs256) ≡ some sk)
    × IsAboutRequest standard names provider (fake_request "app") member sk "access" "" c
    × (provider.id_to_map c ≡ ok m)
    × (provider.signed_string sk sk.id (mapped_claims final) ≡ ok "signed")
    × (get "sub" final ≡ overridden_claim (some identity) true m "sub")
unfolding make_id_token require_signing_key get_signing_key get public_subject_from_auth
    id_token_claims fetched_or auth_time_of with_extra_claims put_all map_of fake_request
make_id_token-overridden_example =
    make_id_token-overridden standard names provider (fake_request "app") member none "access" ""
      (some rs256) (record someone_user { claims = some identity }) "signed" "sub" refl
      ((refl, (refl, tt)), tt) refl

abbrev made_refresh : Token RefreshTokenClaims
made_refresh = record parsed_token { claims = refresh_token_claims provider "app" member "ref" }

abbrev refreshing : TokenRequest
refreshing = record code_request { refresh_token = some made_refresh }

refresh-refresh_token_claims_example :
    refresh standard managers refreshing
    ≡ granted
        (grant_for standard managers "app" member (mark ("openid" ∷ "offline_access" ∷ []) []) user)
unfolding make_array_from_bool_map user_from_claims get get_session_ref
refresh-refresh_token_claims_example =
    refresh-refresh_token_claims standard provider refreshing made_refresh "app" "ref" "u1" member
      user (record someone_user { claims = some identity }) identity (some "basic:-:u1") none refl
      refl (ne_of_eq _ _ refl) tt refl refl refl refl refl refl refl

abbrev own_endpoint : Endpoint TokenParams
own_endpoint = record endpoint { maker = token_maker standard names provider }

abbrev own_tokens : TokenSuccess
own_tokens = record {
  access_token = "signed";
  token_type = "Bearer";
  expires_in = 600;
  id_token = "signed";
  refresh_token = "signed";
}

-- The code of a member, and its exchange.
abbrev member_codes : CodeManager CodeRecord
member_codes = create "c1" 5 (record stored_code { auth = member }) empty_manager
