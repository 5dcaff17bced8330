-- ===== src/Reports.antt =====
-- Reports (backend/src/services/reports.py).
pub mod Context
pub mod Service
pub mod Stored
