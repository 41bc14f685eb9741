-- ===== src/Provider.antt =====
-- oidc/provider: the provider's endpoints.
pub mod Managers
pub mod Keys
pub mod Session
pub mod Grants
pub mod TokenEndpoint
pub mod AuthorizeEndpoint
pub mod Tokens
pub mod UserInfo
pub mod EndSessionEndpoint
pub mod RegistrationEndpoint
