-- ===== src/Tests/Registration.antt =====
-- Runs of the registration endpoint.
use lico.Base.{◌≡◌, refl, true, some}
use lico.Base.Dict.{mark, put, keys}
use lico.Errors.{ok, err, failure}
use lico.Oidc.{standard}
use lico.Clients.{set_dynamic, finish_dynamic, start_dynamic, make_secret, is_local_native_host_uri}
use lico.Payload.Registration.{
  ClientRegistrationRequest, decode_registration_request, validate_registration, check_all,
  required_by, kept_response_types, required_grant_types, kept_grant_types, check_web_uri,
  check_redirect_uris, check_keys, fill_defaults, check_grant_types, check_metadata, check_jwks,
  client_registration,
}
use lico.Payload.Registration.Accepted.{IsAccepted}
use lico.Provider.RegistrationEndpoint.{
  ClientRegistrationResponse, RegistrationEndpoint, created, response_of, registration_handler,
  answer_decoded, accepted_request, answer_accepted, answer_dynamic,
}
use lico.Provider.RegistrationEndpoint.Created.{IsCreated}
use lico.Provider.RegistrationEndpoint.Issued.{
  registration_handler-IsIssued, registration_handler_unsigned,
}
use lico.Tests.{urls, client_lib}
use lico.Tests.Payload.{registration_lib, web_client}
use lico.Tests.Clients.{context}

abbrev registering : RegistrationEndpoint
registering = record {
  urls = urls;
  lib = record registration_lib { decode_json = λ body. ok web_client };
  client_lib = client_lib;
  context = context;
}

abbrev issued : ClientRegistrationResponse
issued = record {
  client_id = "dyn.token";
  client_secret = "random";
  client_id_issued_at = 5;
  client_secret_expires_at = 3605;
  request = web_client;
}

accepted : validate_registration standard urls registering.lib web_client ≡ ok web_client
unfolding validate_registration check_all required_by kept_response_types required_grant_types
    kept_grant_types check_web_uri check_redirect_uris check_keys fill_defaults check_grant_types
    check_metadata check_jwks mark put is_local_native_host_uri keys
accepted = refl

issued_run : registration_handler standard registering true "application/json" "{}" ≡ created issued
unfolding registration_handler decode_registration_request answer_decoded accepted_request
    answer_accepted answer_dynamic set_dynamic finish_dynamic start_dynamic make_secret
    client_registration
issued_run = rw accepted refl

registration_handler-IsIssued_example :
    (true ≡ true)
    × (crr : ClientRegistrationRequest) × (decode_registration_request registering.lib
          "application/json" "{}"
        ≡ ok crr)
    × IsAccepted standard urls crr web_client
    × IsCreated client_lib context web_client issued
registration_handler-IsIssued_example =
    registration_handler-IsIssued standard registering true "application/json" "{}" issued
      issued_run

-- The signing of client ids fails.
abbrev unsigning : RegistrationEndpoint
unsigning = record registering {
  context = record context { creator = some (λ claims. err (failure "no key")) };
}

registration_handler_unsigned_example :
    registration_handler standard unsigning true "application/json" "{}"
    ≡ created (response_of web_client (start_dynamic 5 3600 (client_registration web_client)))
unfolding decode_registration_request make_secret
registration_handler_unsigned_example =
    registration_handler_unsigned standard unsigning "application/json" "{}" _ "random" web_client
      web_client (λ claims. err (failure "no key")) 3600 (failure "no key") refl accepted refl refl
      refl refl
