-- ===== src/Assets.antt =====
-- Assets of a case (backend/src/services/assets.py, backend/src/schemas/assets.py).
pub mod Service
pub mod Names
pub mod Unique
