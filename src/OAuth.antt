-- ===== src/OAuth.antt =====
-- The OAuth authorization server: internal/api/oauth_authorization.go from the token endpoint on,
-- and internal/api/authorization_decisions.go.
pub mod Tables
pub mod Scopes
pub mod Client
pub mod Exchange
pub mod Access
pub mod Decisions
pub mod Changes
pub mod Exchanges
pub mod Calls
pub mod Steps
pub mod Safety
pub mod Revocation
pub mod Entitled
pub mod Rights
pub mod Consents
pub mod Signing
pub mod Verifiable
mod Tests
mod KeyTests
