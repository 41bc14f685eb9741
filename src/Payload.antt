-- ===== src/Payload.antt =====
-- oidc/payload: the requests of the provider's endpoints.
pub mod Claims
pub mod Authentication
pub mod Validation
pub mod Token
pub mod Registration
pub mod EndSession
