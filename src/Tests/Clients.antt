-- ===== src/Tests/Clients.antt =====
-- Runs of the client registry.
use lico.Base.{String, ◌≡◌, ◌≢◌, ◌↔◌, refl, true, false, none, some, [], ◌∷◌, ne_of_eq}
use lico.Base.Lists.{any}
use lico.Base.Dict.{get, put}
use lico.Errors.{ok}
use lico.Url.{Url}
use lico.Oidc.{standard}
use Prim.Native.String
use lico.Clients.{
  dynamic_prefix, ClientRegistration, DynamicContext, set_dynamic, start_dynamic, validate_secret,
  Details,
}
use lico.Clients.Registry.{
  Registry, register_all, validate, check_origin, check_redirect, check_secret, redirect_loop,
  redirect_round,
}
use lico.Clients.Registry.Register.{IsSoundRegistry, register_all-IsSoundRegistry}
use lico.Clients.Registry.Redirects.{is_match, is_web_request, validate-redirect, validate_web}
use lico.Clients.Lookup.{
  lookup, lookup_named, find_registration, finish_lookup, is_implicitly_trusted,
}
use lico.Clients.Lookup.Trust.{IsAccepted, lookup-IsAccepted}
use lico.Clients.Secrets.{subject_of, validate_secret-set_dynamic}
use lico.Tests.{
  callback, callback_url, urls, client_lib, app, empty_registry, registry, parse_client_id,
  standard_laws,
}

empty_sound : IsSoundRegistry standard urls empty_registry
unfolding get
empty_sound = record { at_id = λ id client h. cc }

abbrev registered : Registry
registered = record empty_registry { clients = put "app" app [] }

register_all-IsSoundRegistry_example :
    IsSoundRegistry standard urls (register_all standard urls (app ∷ app ∷ []) empty_registry)
register_all-IsSoundRegistry_example =
    register_all-IsSoundRegistry standard urls (app ∷ app ∷ []) empty_registry empty_sound

validate-redirect_example : any (is_match standard urls false callback) (callback ∷ []) ≡ true
unfolding validate check_origin check_redirect check_secret redirect_loop redirect_round
    validate_secret
validate-redirect_example =
    validate-redirect standard urls client_lib app "" callback "" false refl refl

validate_web_example : (validate standard urls client_lib app "" callback "" false ≡ ok tt) ↔ (
    (is_web_request standard urls app callback "" ≡ true)
    × (check_secret standard urls client_lib app "" false ≡ ok tt))
validate_web_example =
    validate_web standard urls standard_laws client_lib app "" callback "" false refl

abbrev app_details : Details
app_details = record {
  id = "app";
  display_name = "App";
  redirect_uri = callback;
  trusted = false;
  registration = some app;
}

lookup-IsAccepted_example :
    (uri : Url) × (some callback_url ≡ some uri)
    × IsAccepted standard urls client_lib parse_client_id registry "app" "" "" uri false app_details
unfolding lookup lookup_named find_registration finish_lookup is_implicitly_trusted get validate
    check_origin check_redirect check_secret redirect_loop redirect_round validate_secret
lookup-IsAccepted_example =
    lookup-IsAccepted standard urls client_lib parse_client_id registry "app" "" ""
      (some callback_url) false app_details refl

abbrev pub context : DynamicContext
context = record {
  creator = some (λ claims. ok "token");
  registry = some 3600;
  now = 5;
  random_bytes = "random";
}

-- A registration without an id.
abbrev fresh : ClientRegistration
fresh = record app { id = "" }

abbrev subject : String
subject = subject_of (λ s. s) client_lib "App"

subject_made : subject ≢ ""
subject_made = ne_of_eq _ _ refl

validate_secret-set_dynamic_example :
    (set_dynamic client_lib context fresh ≡ (
      record (start_dynamic 5 3600 fresh) {
        id = String.◌++◌ dynamic_prefix "token";
        secret = "random";
      },
      none,
    ))
    × (validate_secret client_lib (record app { secret = subject; dynamic = true }) "random"
        ≡ ok true)
validate_secret-set_dynamic_example =
    validate_secret-set_dynamic client_lib context fresh app (λ s. s) (λ claims. ok "token") 3600
      "token" (record { decode_encode = refl }) refl refl refl refl subject_made refl refl
