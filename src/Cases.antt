-- ===== src/Cases.antt =====
-- Cases (backend/src/services/cases.py): creation from a template, updates and their side effects,
-- closing and merging.
pub mod Create
pub mod Update
pub mod Delete
pub mod Merge
pub mod Numbers
pub mod Effects
pub mod Merging
pub mod Merged
