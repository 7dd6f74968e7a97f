-- ===== src/Oauth.antt =====
-- go/oauthserver: metap as an OAuth2 authorization server.
pub mod Db
pub mod Scope
pub mod Codes
pub mod Consents
pub mod Refresh
pub mod Clients
pub mod Cleanup
pub mod Grants
pub mod Authorize
pub mod History
