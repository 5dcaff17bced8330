-- ===== src/Alerts.antt =====
-- Alerts (backend/src/services/alerts.py, backend/src/schemas/alerts.py).
pub mod Ingest
pub mod Dedup
pub mod Triage
pub mod Promote
pub mod Workflow
pub mod Triaged
