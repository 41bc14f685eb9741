-- ===== src/Lib.antt =====
-- A model of the OpenID Connect provider lico: the endpoints that hand out codes and tokens, tell who a
-- token is for and end sessions, the payloads that they read, the making of tokens, the registry of
-- clients, the table of authorization codes, and what identity managers do.
--
-- How the parts interact: the authorize endpoint decodes and validates a request (Payload), looks at
-- the client's registration for keys and implicit scopes (Clients), asks an identity manager for the
-- user, makes a session, puts a code in the table (Code) and answers with a redirect. The token endpoint
-- reads a code or a refresh token, looks the client up, takes the grant and makes tokens of it. The user
-- info endpoint takes an access token and asks its manager for the user (Identity.Claims selects the
-- claims that its scopes release). The end session endpoint hands the request to the manager of the
-- session and redirects.
--
-- Base: Boolean tests, maps as association lists (Dict), strings.Split, Join and SplitN (Text), lists.
-- Oidc, Url, Jwt: the names of oidc-go, net/url and golang-jwt that the program uses; what these
-- packages do is a parameter (UrlLib, ClientLib, RequestLib, TokenLib, SessionLib, EndSessionLib,
-- TokenProvider).
-- Errors: oidc/errors.go, identity/errors.go; a call returns a value, an error or a run-time panic.
-- Code: oidc/code/managers/memorymap.go. create, pop and purge_expired on the table; Step lets requests
-- and the ticker's goroutine take turns, with the clock in seconds. The purge is taken to run when the
-- tick is due, so that the clock never passes a tick. Code.Refine compares runs of calls with a table
-- that is a function of the code.
-- TokenClaims: claims.go and scopes.go.
-- Clients: identity/clients (models.go, clients.go, claims.go); Clients.Registry is Register and Validate,
-- Clients.Lookup is Lookup and Get of registry.go.
-- Payload: oidc/payload. Claims is claims.go, Authentication is NewAuthenticationRequest and
-- ApplyRequestObject, Validation is Validate of the request, Token is token.go, Registration is
-- registration.go, EndSession is endsession.go.
-- Identity: AuthorizeScopes of identity/utils.go and identity/authrecord.go, with the list helpers of
-- oidc/provider/utils.go and the claims of oidc/claims.go. Identity.Claims is GetUserClaimsForScopes of
-- identity/utils.go. Identity.Identifier (with Authenticate and Authorize) and Identity.Guest are
-- identity/managers/identifier.go and identity/managers/guest.go; what the identifier application does
-- is a parameter (Identifier, SignIn, Logon), save Consent.Scopes of identifier/models.go.
-- Provider: oidc/provider. Managers is identity.go, Session is session.go, Keys is getSigningKey and
-- validateJWT, Keys.Setup is SetSigningKey of provider.go, Tokens is tokens.go and subject.go;
-- Grants and TokenEndpoint are TokenHandler, AuthorizeEndpoint is AuthorizeHandler and
-- AuthorizeResponse, UserInfo is UserInfoHandler with GetAccessTokenClaimsFromRequest of
-- provider.go, EndSessionEndpoint is EndSessionHandler and RegistrationEndpoint is
-- RegistrationHandler of handlers.go. A handler is a function of the table of codes and of what it
-- reads to the new table and what it writes. TokenHandler and AuthorizeHandler use the interfaces
-- TokenMaker and IdentityManagers; Tokens.Maker fills TokenMaker with tokens.go.
-- Tests: runs of all this with a small provider.
--
-- No definition needs fuel: all loops go over lists and texts. Durations are 64-bit integers as bits, with the
-- multiplication modulo 2 ^ 64 written out.
--
-- Not modelled: the cookie and dummy managers, which are behind the interface IdentityManagers; the
-- handlers of the keys, of the well-known document and of the check session frame; the browser state
-- and the session state, whose errors are only logged; the rest of the identifier application, the
-- external authorities, the wiring, pages, cookies and logs.
pub mod Base
pub mod Oidc
pub mod Url
pub mod TokenClaims
pub mod Errors
pub mod Jwt
pub mod Code
pub mod Clients
pub mod Payload
pub mod Identity
pub mod Provider
pub mod Tests
