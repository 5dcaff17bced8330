-- ===== src/Enrichment.antt =====
-- The enrichment of observables (backend/src/services/enrichment.py).
pub mod Service
