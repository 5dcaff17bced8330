-- ===== src/Tenants.antt =====
-- Tenants (backend/src/services/tenants.py, backend/src/schemas/tenants.py).
pub mod Service
