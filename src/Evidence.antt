-- ===== src/Evidence.antt =====
-- Evidence files (backend/src/services/evidence.py, storage.py).
pub mod Storage
pub mod Service
pub mod Sealing
pub mod Download
