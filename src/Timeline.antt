-- ===== src/Timeline.antt =====
-- The timeline of a case (backend/src/services/timeline_recorder.py, timeline.py, clustering.py).
pub mod Recorder
pub mod Clustering
pub mod Clusters
pub mod Service
pub mod Swimlane
pub mod Lanes
pub mod Automatic
