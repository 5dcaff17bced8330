-- ===== src/Auth.antt =====
-- Authentication and authorization (backend/src/auth).
pub mod Rbac
pub mod Permissions
pub mod Secrets
pub mod Sessions
pub mod Lifetime
pub mod Principal
pub mod Identity
pub mod Keys
pub mod Scope
pub mod Isolation
pub mod Tokens
pub mod Logout
