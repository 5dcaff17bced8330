-- ===== src/Templates.antt =====
-- Case templates (backend/src/services/templates.py, backend/src/schemas/templates.py).
pub mod Service
