-- ===== src/Search.antt =====
-- Full-text search (backend/src/services/search.py).
pub mod Service
pub mod Hits
