-- ===== src/Audit.antt =====
-- The audit log (backend/src/services/audit.py).
pub mod Service
pub mod Trail
