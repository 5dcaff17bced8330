-- ===== src/Users.antt =====
-- Users and service accounts (backend/src/services/users.py, backend/src/schemas/users.py).
pub mod Service
pub mod Names
pub mod Routes
pub mod Tenancy
