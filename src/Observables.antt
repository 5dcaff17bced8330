-- ===== src/Observables.antt =====
-- Observables (backend/src/services/validators.py, observables.py).
pub mod Validators
pub mod Service
pub mod Correlation
pub mod Creation
