-- ===== src/Tests/EndSession.antt =====
-- Runs of the end session endpoint.
use lico.Base.{◌≡◌, refl, true, none, some, [], ne_of_eq}
use lico.Errors.{ok}
use lico.Oidc.{standard}
use lico.Jwt.{Token, IdTokenClaims, text}
use lico.Clients.{Details}
use lico.Identity.{identity_manager, guest_manager}
use lico.Identity.Guest.{GuestManager, guest_end_session}
use lico.Identity.Identifier.{Identifier, end_session}
use lico.Payload.EndSession.{EndSessionLib, EndSessionParams}
use lico.Payload.Authentication.{Session}
use lico.Provider.EndSessionEndpoint.{EndSessionEndpoint, found, end_session_handler}
use lico.Provider.EndSessionEndpoint.Trusted.{end_session_handler-guest}
use lico.Provider.Managers.{IdentityManagers, manager_from_session, get_identity_manager}
use lico.Tests.{callback, callback_url, urls, rs256}
use lico.Tests.Provider.{managers, keys, app_details}

abbrev hint : Token IdTokenClaims
hint = record {
  method = rs256;
  alg = text "RS256";
  kid = text "k";
  claims = record { subject = "u1"; audience = "app" };
}

abbrev trusted_details : Details
trusted_details = record app_details { trusted = true }

-- Nobody is logged on, and the client of the hint is trusted.
abbrev pub identifier : Identifier
identifier = record {
  signed_out_uri = "https://op.example.org/goodbye";
  scopes_supported = [];
  identifier_scopes = [];
  logon_user = none;
  end_session = λ u uri state. ok none;
  get_user_from_id = λ id session scopes. ok none;
  lookup_client = λ id uri. ok trusted_details;
  random_string = "random";
  urls = urls;
  set_query = λ pairs uri. uri;
}

abbrev guest_manager_for_tests : GuestManager
guest_manager_for_tests = record {
  scopes_supported = [];
  get_public_subject = λ raw name. raw;
  lookup_client = λ id uri. ok trusted_details;
  has_no_trusted_scopes = λ client. true;
}

abbrev two_managers : IdentityManagers
two_managers = record managers {
  has_guest = true;
  name = λ m. elim m [ identity_manager ↦ "basic" | guest_manager ↦ "guest" ];
}

abbrev end_lib : EndSessionLib EndSessionParams
end_lib = record { decode_schema = λ p. ok p; parse_hint = λ raw key. ok hint }

abbrev ending : EndSessionEndpoint EndSessionParams
ending = record {
  lib = end_lib;
  urls = urls;
  keys = keys;
  get_signing_method = λ alg. some rs256;
  managers = two_managers;
  end_session = λ m esr. elim m [
    | identity_manager ↦ end_session standard identifier esr
    | guest_manager ↦ guest_end_session standard guest_manager_for_tests []
  ];
}

abbrev hinted : EndSessionParams
hinted = record { raw_id_token_hint = "token"; raw_post_logout_redirect_uri = callback; state = "" }

abbrev unhinted : EndSessionParams
unhinted = record hinted { raw_id_token_hint = "" }

abbrev guest_session : Session
guest_session = record { version = 2; id = "s1"; sub = "guest"; provider = "guest" }

end_session_handler-guest_example :
    end_session_handler standard ending (ok unhinted) (ok (some guest_session))
    ≡ found callback_url none
unfolding manager_from_session get_identity_manager guest_end_session
end_session_handler-guest_example =
    end_session_handler-guest standard ending guest_manager_for_tests [] unhinted unhinted
      (some guest_session) callback_url refl (λ esr. refl) refl refl refl refl refl
      (ne_of_eq _ _ refl)
