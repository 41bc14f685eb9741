-- ===== src/Oidc.antt =====
-- The constants of github.com/libregraph/oidc-go, a parameter of the model: its source is not part
-- of the repository. The laws are what Go requires of a switch over such constants: no two cases of
-- one switch are equal.
use lico.Base.{String, ◌≢◌}

pub record Oidc : Type 0 where
  pub scope_openid : String
  pub scope_profile : String
  pub scope_email : String
  pub scope_offline_access : String
  pub response_type_code : String
  pub response_type_id_token : String
  pub response_type_id_token_token : String
  pub response_type_code_id_token : String
  pub response_type_code_token : String
  pub response_type_code_id_token_token : String
  pub response_type_token : String
  pub response_mode_fragment : String
  pub response_mode_query : String
  pub flow_code : String
  pub flow_implicit : String
  pub flow_hybrid : String
  pub s256_code_challenge_method : String
  pub prompt_none : String
  pub prompt_login : String
  pub prompt_select_account : String
  pub grant_type_authorization_code : String
  pub grant_type_implicit : String
  pub grant_type_refresh_token : String
  pub application_type_web : String
  pub application_type_native : String
  pub auth_method_client_secret_basic : String
  pub auth_method_none : String
  pub token_type_bearer : String
  pub subject_identifier_claim : String
  pub auth_time_claim : String
  pub issuer_identifier_claim : String
  pub audience_claim : String
  pub email_claim : String
  pub email_verified_claim : String
  pub name_claim : String
  pub family_name_claim : String
  pub given_name_claim : String
  pub prompt_consent : String
  pub interaction_required : String
  pub invalid_request : String
  pub invalid_request_object : String
  pub unsupported_response_type : String
  pub request_uri_not_supported : String
  pub registration_not_supported : String
  pub login_required : String
  pub server_error : String
  pub access_denied : String
  pub invalid_grant : String
  pub invalid_token : String
  pub insufficient_scope : String
  pub unsupported_grant_type : String
  pub invalid_redirect_uri : String
  pub invalid_client_metadata : String

-- What the constants are relied on for.
pub record OidcLaws (o : Oidc) : Type 0 where
  pub grants_differ : o.grant_type_authorization_code ≢ o.grant_type_refresh_token
  pub implicit_ne_code : o.grant_type_implicit ≢ o.grant_type_authorization_code
  pub applications_differ : o.application_type_web ≢ o.application_type_native
  pub flow_code_ne_implicit : o.flow_code ≢ o.flow_implicit
  pub flow_hybrid_ne_implicit : o.flow_hybrid ≢ o.flow_implicit

-- The values that the specifications of OpenID Connect and OAuth 2.0 give; tests run with them.
abbrev pub standard : Oidc
standard = record {
  scope_openid = "openid";
  scope_profile = "profile";
  scope_email = "email";
  scope_offline_access = "offline_access";
  response_type_code = "code";
  response_type_id_token = "id_token";
  response_type_id_token_token = "id_token token";
  response_type_code_id_token = "code id_token";
  response_type_code_token = "code token";
  response_type_code_id_token_token = "code id_token token";
  response_type_token = "token";
  response_mode_fragment = "fragment";
  response_mode_query = "query";
  flow_code = "code";
  flow_implicit = "implicit";
  flow_hybrid = "hybrid";
  s256_code_challenge_method = "S256";
  prompt_none = "none";
  prompt_login = "login";
  prompt_select_account = "select_account";
  grant_type_authorization_code = "authorization_code";
  grant_type_implicit = "implicit";
  grant_type_refresh_token = "refresh_token";
  application_type_web = "web";
  application_type_native = "native";
  auth_method_client_secret_basic = "client_secret_basic";
  auth_method_none = "none";
  token_type_bearer = "Bearer";
  subject_identifier_claim = "sub";
  auth_time_claim = "auth_time";
  issuer_identifier_claim = "iss";
  audience_claim = "aud";
  email_claim = "email";
  email_verified_claim = "email_verified";
  name_claim = "name";
  family_name_claim = "family_name";
  given_name_claim = "given_name";
  prompt_consent = "consent";
  interaction_required = "interaction_required";
  invalid_request = "invalid_request";
  invalid_request_object = "invalid_request_object";
  unsupported_response_type = "unsupported_response_type";
  request_uri_not_supported = "request_uri_not_supported";
  registration_not_supported = "registration_not_supported";
  login_required = "login_required";
  server_error = "server_error";
  access_denied = "access_denied";
  invalid_grant = "invalid_grant";
  invalid_token = "invalid_token";
  insufficient_scope = "insufficient_scope";
  unsupported_grant_type = "unsupported_grant_type";
  invalid_redirect_uri = "invalid_redirect_uri";
  invalid_client_metadata = "invalid_client_metadata";
}
