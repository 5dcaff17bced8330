-- ===== src/Attack.antt =====
-- The mapping of cases to MITRE ATT&CK (backend/src/services/attack.py).
pub mod Service
pub mod Heatmap
pub mod Cells
pub mod Linked
pub mod Severity
pub mod Described
