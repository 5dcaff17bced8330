-- ===== src/Paging.antt =====
-- The pages of a list endpoint (backend/src/schemas/common.py).
pub mod Pages
pub mod Cover
