-- ===== src/Tasks.antt =====
-- Tasks (backend/src/services/tasks.py, backend/src/schemas/tasks.py).
pub mod Service
pub mod Completion
