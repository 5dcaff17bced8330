-- ===== src/Geospatial.antt =====
-- The clustering of markers on the map (backend/src/services/geospatial.py).
pub mod Points
pub mod Partition
