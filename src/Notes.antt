-- ===== src/Notes.antt =====
-- Note folders (backend/src/services/notes.py).
pub mod Folders
pub mod Notes
pub mod Filed
pub mod Keeping
pub mod Climbing
pub mod Rooted
