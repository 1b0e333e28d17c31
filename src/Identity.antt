-- ===== src/Identity.antt =====
-- The package packages/identity: roles and permissions, and tokens.
pub mod Roles
pub mod Access
pub mod Token
pub mod Keys
pub mod WebAuthn
pub mod Manifest
pub mod Agents
mod Tests
